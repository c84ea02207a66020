-- ===== src/Shell/Descriptors/Restore.antt =====
-- `restore_std` of shell.c after a redirection.
use epfl_ba6_os.Prelude.{
  ℕ, zero, suc, ◌<◌, ◌+◌, ◌≡◌, ◌≢◌, refl, sym, ap, subst, ◌∙◌, true, false, Option, none, some,
  ◌==◌, arith, ==_iff, inl, inr, Option-cases, Bool-cases,
}
use epfl_ba6_os.Shell.Descriptors.{
  Std, write, lowest_free, close, no_fd, stdin_fileno, stdout_fileno, redirect_out, redirect_in,
  restore_std,
}

lowest_free-closed :
    {F : Type 0} (n i : ℕ) (fds : ℕ → Option F) → fds i ≡ none → lowest_free (suc n) i fds ≡ some i
unfolding lowest_free
lowest_free-closed n i fds e = rw e refl

lowest_free-open :
    {F : Type 0} (n i : ℕ) (f : F) (fds : ℕ → Option F)
    → fds i ≡ some f
    → lowest_free (suc n) i fds ≡ lowest_free n (i + 1) fds
unfolding lowest_free
lowest_free-open n i f fds e = rw e refl

lowest_free_lem :
    {F : Type 0} (n i k : ℕ) (fds : ℕ → Option F) → lowest_free n i fds ≡ some k → fds k ≡ none
unfolding lowest_free
lowest_free_lem zero i k fds h = absurd cc
lowest_free_lem (suc n) i k fds h = elim (Option-cases (fds i)) [
  | inl e ↦
      let q = sym (lowest_free-closed n i fds e) ∙ h in
      let same : i ≡ k = cc in subst (λ j. fds j ≡ none) same e
  | inr (f, e) ↦ lowest_free_lem n (i + 1) k fds (sym (lowest_free-open n i f fds e) ∙ h)
]

==-distinct : (a b : ℕ) → a ≢ b → (a == b) ≡ false
==-distinct a b h = ground (arith, h)

==-same : (a : ℕ) → (a == a) ≡ true
==-same a = ground arith

-- A descriptor that is open is not the closed one.
open-closed :
    {F : Type 0} (fds : ℕ → Option F) (a b : ℕ) (f : F) → fds a ≡ some f → fds b ≡ none → a ≢ b
open-closed fds a b f h e q = let c = sym h ∙ ap fds q ∙ e in cc

-- What `restore_std` makes of the table, for the standard descriptor `std`.
table_back :
    {F : Type 0} (std : ℕ) (fds : ℕ → Option F) (old file : F) (fd k q : ℕ)
    → fds std ≡ some old
    → fds fd ≡ none
    → fds k ≡ none
    → write
        (write
          (close (write (write (write fds fd (some file)) k (some old)) std (some file)) fd)
          std
          (some old))
        k
        none
        q
      ≡ fds q
table_back std fds old file fd k q h hd hk = elim (Bool-cases (k == q)) [
  | inl a ↦ rw a (sym (subst (λ j. fds j ≡ none) ((==_iff k q).0 a) hk))
  | inr a ↦ elim (Bool-cases (std == q)) [
    | inl b ↦ rw (a, b) (sym (subst (λ j. fds j ≡ some old) ((==_iff std q).0 b) h))
    | inr b ↦ elim (Bool-cases (fd == q)) [
      | inl c ↦ rw (a, b, c) (sym (subst (λ j. fds j ≡ none) ((==_iff fd q).0 c) hd))
      | inr c ↦ rw (a, b, c) refl
    ]
  ]
]

-- The descriptors of a redirection: the file's, the backup's, and the standard one.
record Distinct {F : Type 0} (std fd k : ℕ) (fds : ℕ → Option F) : Type 0 where
  fd_std : (fd == std) ≡ false
  k_fd : (k == fd) ≡ false
  fd_k : (fd == k) ≡ false
  k_std : (k == std) ≡ false
  std_k : (std == k) ≡ false
  fd_closed : fds fd ≡ none
  k_closed : fds k ≡ none

module _ {F : Type 0} (limit : ℕ) where
  lowest_free-fd :
      (std : ℕ) (fds : ℕ → Option F) (old : F) (fd : ℕ)
      → fds std ≡ some old
      → lowest_free limit 0 fds ≡ some fd
      → (fd == std) ≡ false
  lowest_free-fd std fds old fd h e =
      ==-distinct fd std
        (λ q. open-closed fds std fd old h (lowest_free_lem limit 0 fd fds e) (sym q))

  lowest_free-Distinct :
      (std : ℕ) (fds : ℕ → Option F) (old file : F) (fd k : ℕ)
      → fds std ≡ some old
      → lowest_free limit 0 fds ≡ some fd
      → lowest_free limit 0 (write fds fd (some file)) ≡ some k
      → Distinct std fd k fds
  lowest_free-Distinct std fds old file fd k h e d = record {
    fd_std = fd_std;
    k_fd = ==-distinct k fd (λ q. open-closed opened fd k file at_fd closed (sym q));
    fd_k = fd_k;
    k_std = ==-distinct k std (λ q. open-closed opened std k old at_std closed (sym q));
    std_k = ==-distinct std k (open-closed opened std k old at_std closed);
    fd_closed = lowest_free_lem limit 0 fd fds e;
    k_closed = rw fd_k at closed;
  }
    where
      opened : ℕ → Option F
      opened = write fds fd (some file)

      fd_std : (fd == std) ≡ false
      fd_std = lowest_free-fd std fds old fd h e

      closed : write fds fd (some file) k ≡ none
      closed = lowest_free_lem limit 0 k (write fds fd (some file)) d

      at_fd : write fds fd (some file) fd ≡ some file
      at_fd = rw (==-same fd) refl

      at_std : write fds fd (some file) std ≡ some old
      at_std = rw fd_std h

      fd_k : (fd == k) ≡ false
      fd_k = ==-distinct fd k (open-closed opened fd k file at_fd closed)

  -- The table after a redirection.
  redirected : ℕ → (ℕ → Option F) → F → F → ℕ → ℕ → ℕ → Option F
  redirected std fds old file fd k =
      close (write (write (write fds fd (some file)) k (some old)) std (some file)) fd

  -- `> file` with standard output in place, and then `restore_std`: in between standard output is
  -- the file, and afterwards every descriptor refers to what it referred to before. The file and
  -- the backup need a free descriptor each.
  pub redirect_out-restore :
      (fds : ℕ → Option F) (out file : F) (fd k : ℕ)
      → fds stdout_fileno ≡ some out
      → lowest_free limit 0 fds ≡ some fd
      → lowest_free limit 0 (write fds fd (some file)) ≡ some k
      → (t : Std F) × (redirect_out limit
            (some file)
            (record { fds = fds; saved_in = 0; saved_out = 1 })
          ≡ (true, t))
        × (t.fds stdout_fileno ≡ some file)
        × ((q : ℕ) → (restore_std t).fds q ≡ fds q)
        × ((restore_std t).saved_in ≡ 0)
        × ((restore_std t).saved_out ≡ 1)
  unfolding redirect_out restore_std redirected
  redirect_out-restore fds out file fd k h e d =
      let r = lowest_free-Distinct 1 fds out file fd k h e d in
      (
        record { fds = redirected 1 fds out file fd k; saved_in = 0; saved_out = k },
        rw (e, r.fd_std, h, d, r.k_fd, ==-same fd) refl,
        rw r.fd_std refl,
        (λ q.
            rw (r.k_std, r.fd_k, r.std_k, ==-same k)
              (table_back 1 fds out file fd k q h r.fd_closed r.k_closed)),
        rw r.k_std refl,
        rw r.k_std refl,
      )

  -- The same for `< file` and standard input.
  pub redirect_in-restore :
      (fds : ℕ → Option F) (in' file : F) (fd k : ℕ)
      → fds stdin_fileno ≡ some in'
      → lowest_free limit 0 fds ≡ some fd
      → lowest_free limit 0 (write fds fd (some file)) ≡ some k
      → (t : Std F) × (redirect_in limit
            (some file)
            (record { fds = fds; saved_in = 0; saved_out = 1 })
          ≡ (true, t))
        × (t.fds stdin_fileno ≡ some file)
        × ((q : ℕ) → (restore_std t).fds q ≡ fds q)
        × ((restore_std t).saved_in ≡ 0)
        × ((restore_std t).saved_out ≡ 1)
  unfolding redirect_in restore_std redirected
  redirect_in-restore fds in' file fd k h e d =
      let r = lowest_free-Distinct 0 fds in' file fd k h e d in
      (
        record { fds = redirected 0 fds in' file fd k; saved_in = k; saved_out = 1 },
        rw (e, r.fd_std, h, d, r.k_fd, ==-same fd) refl,
        rw r.fd_std refl,
        (λ q.
            rw (r.k_std, r.fd_k, r.std_k, ==-same k)
              (table_back 0 fds in' file fd k q h r.fd_closed r.k_closed)),
        rw r.k_std refl,
        rw r.k_std refl,
      )

  -- Where the file takes the last free descriptor there is none for the backup, and standard output
  -- remains the file also after `restore_std`. No descriptor has the number -1.
  pub redirect_out-lost :
      (fds : ℕ → Option F) (out file : F) (fd : ℕ)
      → fds stdout_fileno ≡ some out
      → fds no_fd ≡ none
      → fd < no_fd
      → lowest_free limit 0 fds ≡ some fd
      → lowest_free limit 0 (write fds fd (some file)) ≡ none
      → (t : Std F) × (redirect_out limit
            (some file)
            (record { fds = fds; saved_in = 0; saved_out = 1 })
          ≡ (true, t))
        × ((restore_std t).fds stdout_fileno ≡ some file)
  unfolding redirect_out restore_std
  redirect_out-lost fds out file fd h m l e d =
      let fd_std = lowest_free-fd 1 fds out fd h e in
      let fd_no : (fd == no_fd) ≡ false =
        ==-distinct fd no_fd (λ q. absurd (omega (arith, q, l))) in
      (
        record {
          fds = close (write (write fds fd (some file)) 1 (some file)) fd;
          saved_in = 0;
          saved_out = no_fd;
        },
        rw (e, fd_std, h, d, ==-same fd) refl,
        rw (fd_no, m, fd_std) refl,
      )
