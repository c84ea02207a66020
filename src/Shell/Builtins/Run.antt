-- ===== src/Shell/Builtins/Run.antt =====
-- What `run_builtin` of shell.c does on each command.
use epfl_ba6_os.Prelude.{
  ℕ, ◌≡◌, ◌≢◌, refl, sym, ap, subst, ◌∙◌, List, [], ◌∷◌, ◌++◌, some, none, str_eq, str_eq_iff,
  Bool-cases, Option-cases, inl, inr, ◌↔◌, All,
}
use epfl_ba6_os.Shell.Builtins.{
  cd_name, exit_name, status_name, number, Builtin, builtin_cd, builtin_exit, builtin_status,
  builtins, find_builtin, call, call_cd, call_found, Shell, store_status, RunResult, not_builtin,
  ran, ended, run_builtin,
}

find_builtin-none_iff :
    (table : List (List ℕ × Builtin)) (name : List ℕ)
    → (find_builtin table name ≡ none) ↔ All (λ b. b.0 ≢ name) table
unfolding find_builtin
find_builtin-none_iff [] name = ((λ h. tt), (λ h. refl))
find_builtin-none_iff (b ∷ bs) name = elim (Bool-cases (str_eq b.0 name)) [
  | inl e ↦ rw e ((λ h. absurd cc), (λ h. absurd (h.0 ((str_eq_iff b.0 name).0 e))))
  | inr e ↦ rw e (
    (λ h. (
      (λ (k : b.0 ≡ name). absurd (let t = (str_eq_iff b.0 name).1 k in cc)),
      (find_builtin-none_iff bs name).0 h,
    )),
    (λ h. (find_builtin-none_iff bs name).1 h.1),
  )
]

module _ {W : Type 0} (chdir : List ℕ → W → ℕ × W) where
  call_found-some :
      (b : Builtin) (args : List (List ℕ)) (s : Shell chdir)
      → call_found chdir (some b) args s ≢ not_builtin
  unfolding call_found call call_cd store_status
  call_found-some builtin_cd [] s h = cc
  call_found-some builtin_cd (d ∷ args) s h = cc
  call_found-some builtin_exit args s h = cc
  call_found-some builtin_status args s h = cc

  -- `run_builtin` returns 0 exactly if the name is none of those of the table.
  pub run_builtin-none_iff :
      (name : List ℕ) (args : List (List ℕ)) (s : Shell chdir)
      → (run_builtin chdir name args s ≡ not_builtin) ↔ All (λ b. b.0 ≢ name) builtins
  unfolding run_builtin
  run_builtin-none_iff name args s = elim (Option-cases (find_builtin builtins name)) [
    | inl e ↦ (
      (λ h. (find_builtin-none_iff builtins name).0 e),
      (λ h. ap (λ o. call_found chdir o args s) e),
    )
    | inr (b, e) ↦ (
      (λ h. absurd (call_found-some b args s (ap (λ o. call_found chdir o args s) (sym e) ∙ h))),
      (λ h. absurd (let t = sym e ∙ (find_builtin-none_iff builtins name).1 h in cc)),
    )
  ]

  -- What `cd` returns.
  abbrev pub cd_status : List (List ℕ) → Shell chdir → ℕ
  cd_status [] s = 1
  cd_status (dir ∷ args) s = (chdir dir s.world).0

  -- The state after a command that has run, or a default.
  state_of : Shell chdir → RunResult chdir → Shell chdir
  state_of d not_builtin = d
  state_of d (ran s) = s
  state_of d (ended code) = d

  -- A state in which `error` is `code`: what `exit` and `status` do with it.
  IsReported : ℕ → List (List ℕ) → Shell chdir → Type 0
  IsReported code others t =
      (run_builtin chdir exit_name others t ≡ ended code)
      × (run_builtin chdir status_name others t
          ≡ ran (record t { error = 0; output = t.output ++ number code ∷ [] }))

  -- After `cd` the exit code of `exit` and the number that `status` prints are what `chdir`
  -- returned, or 1 if `cd` had no argument; `status` itself then leaves 0.
  pub cd-then_report :
      (args others : List (List ℕ)) (s s' : Shell chdir)
      → run_builtin chdir cd_name args s ≡ ran s'
      → (run_builtin chdir exit_name others s' ≡ ended (cd_status args s))
        × (run_builtin chdir status_name others s'
            ≡ ran (record s' { error = 0; output = s'.output ++ number (cd_status args s) ∷ [] }))
  unfolding run_builtin state_of IsReported str_eq
  cd-then_report [] others s s' h = subst (IsReported 1 others) (ap (state_of s) h) (refl, refl)
  cd-then_report (dir ∷ args) others s s' h =
      subst (IsReported (chdir dir s.world).0 others) (ap (state_of s) h) (refl, refl)
