-- ===== src/Tests/Redaction.antt =====
-- A secret that is cut in two.
use coterie.Prelude.{ℕ, ◌≡◌, refl, true, some, List, [], ◌∷◌, ◌++◌}
use coterie.Sql.{exists_where}
use coterie.Redaction.{
  starts_with, all_hex, token_partial, partial, token_found, exact, longest, drain_loop, drain,
  push, finish, Redactor,
}
use coterie.Redaction.Scan.{IsClean}
use coterie.Redaction.Laws.{push-append, finish-push, concealed}

-- The secret `key`.
abbrev sample_redactor : Redactor
sample_redactor = record { secrets = (107 ∷ 101 ∷ 121 ∷ []) ∷ []; pending = [] }

sample_redactor-IsClean : IsClean sample_redactor.secrets
unfolding IsClean exists_where
sample_redactor-IsClean = refl

-- `a ke`, then `y b`.
push-append_example :
    (out1 out2 : List ℕ) × (r1 r2 : Redactor) × (push sample_redactor (97 ∷ 32 ∷ 107 ∷ 101 ∷ [])
      ≡ some (out1, r1))
    × (push r1 (121 ∷ 32 ∷ 98 ∷ []) ≡ some (out2, r2))
    × (push sample_redactor ((97 ∷ 32 ∷ 107 ∷ 101 ∷ []) ++ (121 ∷ 32 ∷ 98 ∷ []))
        ≡ some (out1 ++ out2, r2))
push-append_example =
    push-append sample_redactor (97 ∷ 32 ∷ 107 ∷ 101 ∷ []) (121 ∷ 32 ∷ 98 ∷ [])
      sample_redactor-IsClean

push_runs :
    push sample_redactor (97 ∷ 32 ∷ 107 ∷ 101 ∷ [])
    ≡ some (97 ∷ 32 ∷ [], record sample_redactor { pending = 107 ∷ 101 ∷ [] })
unfolding push drain drain_loop partial token_partial longest exact token_found starts_with all_hex
    exists_where
push_runs = refl

finish-push_example :
    (partial sample_redactor.secrets (107 ∷ 101 ∷ []) ≡ true)
    × (finish (record sample_redactor { pending = 107 ∷ 101 ∷ [] })
        ≡ some (concealed (107 ∷ 101 ∷ []), sample_redactor))
finish-push_example =
    finish-push sample_redactor (97 ∷ 32 ∷ 107 ∷ 101 ∷ []) sample_redactor-IsClean push_runs
