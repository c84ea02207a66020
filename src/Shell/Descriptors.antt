-- ===== src/Shell/Descriptors.antt =====
-- The redirections of `process_command` of shell.c, and `restore_std`, which undoes them, over the
-- table of descriptors of the process. `F` is what a descriptor refers to.
pub mod Restore
use epfl_ba6_os.Prelude.{
  ℕ, zero, suc, ◌+◌, ◌-◌, ◌^◌, Bool, true, false, Option, none, some, ◌==◌, if◌then◌else◌, ◌≡◌,
  refl,
}

abbrev pub stdin_fileno : ℕ
stdin_fileno = 0

abbrev pub stdout_fileno : ℕ
stdout_fileno = 1

-- -1 as the 32 bits of an `int`.
abbrev pub no_fd : ℕ
no_fd = 2 ^ 32 - 1

module _ {F : Type 0} where
  abbrev pub write : (ℕ → Option F) → ℕ → Option F → ℕ → Option F
  write fds a v q = if a == q then v else fds q

  abbrev pub free_at : Option F → ℕ → Option ℕ → Option ℕ
  free_at none i rest = some i
  free_at (some f) i rest = rest

  -- The lowest descriptor from `i` on that is closed, if one of the next `n` is.
  unfoldable pub lowest_free : ℕ → ℕ → (ℕ → Option F) → Option ℕ
  lowest_free zero i fds = none
  lowest_free (suc n) i fds = free_at (fds i) i (lowest_free n (i + 1) fds)

  -- `dup2` to `b` of what the other descriptor refers to. One that is closed is an error, which the
  -- shell does not look at.
  abbrev pub copy_to : (ℕ → Option F) → Option F → ℕ → ℕ → Option F
  copy_to fds none b = fds
  copy_to fds (some f) b = write fds b (some f)

  abbrev pub dup2 : (ℕ → Option F) → ℕ → ℕ → ℕ → Option F
  dup2 fds a b = copy_to fds (fds a) b

  abbrev pub close : (ℕ → Option F) → ℕ → ℕ → Option F
  close fds a = write fds a none

-- The table, with `inout[0]` and `inout[1]`.
pub record Std (F : Type 0) : Type 0 where
  pub fds : ℕ → Option F
  pub saved_in : ℕ
  pub saved_out : ℕ

module _ {F : Type 0} where
  -- `dup` of what a descriptor refers to, at the lowest one that is free; `no_fd` stands for -1.
  abbrev pub dup_at : (ℕ → Option F) → Option F → Option ℕ → ℕ × (ℕ → Option F)
  dup_at fds none free = (no_fd, fds)
  dup_at fds (some f) none = (no_fd, fds)
  dup_at fds (some f) (some k) = (k, write fds k (some f))

  -- `open` of a file that can be opened, `some`, or not; the result `none` stands for -1.
  abbrev pub open_at : (ℕ → Option F) → Option F → Option ℕ → Option ℕ × (ℕ → Option F)
  open_at fds none free = (none, fds)
  open_at fds (some file) none = (none, fds)
  open_at fds (some file) (some fd) = (some fd, write fds fd (some file))

-- `limit` is how many descriptors a process may have open.
module _ {F : Type 0} (limit : ℕ) where
  abbrev pub dup : (ℕ → Option F) → ℕ → ℕ × (ℕ → Option F)
  dup fds a = dup_at fds (fds a) (lowest_free limit 0 fds)

  abbrev pub open_file : (ℕ → Option F) → Option F → Option ℕ × (ℕ → Option F)
  open_file fds file = open_at fds file (lowest_free limit 0 fds)

  -- What follows `open` in the case '>'. The result says whether `fd < 0` is false; if it is true
  -- the arguments are dropped.
  abbrev pub backup_out : Option ℕ → Std F → Bool × Std F
  backup_out none s = (false, s)
  backup_out (some fd) s =
      let (k, fds') = dup s.fds s.saved_out in
      (true, record s { fds = close (dup2 fds' fd stdout_fileno) fd; saved_out = k })

  -- The case '>' from `open` on.
  unfoldable pub redirect_out : Option F → Std F → Bool × Std F
  redirect_out file s =
      let (fd, fds') = open_file s.fds file in backup_out fd (record s { fds = fds' })

  -- The same in the case '<'.
  abbrev pub backup_in : Option ℕ → Std F → Bool × Std F
  backup_in none s = (false, s)
  backup_in (some fd) s =
      let (k, fds') = dup s.fds s.saved_in in
      (true, record s { fds = close (dup2 fds' fd stdin_fileno) fd; saved_in = k })

  unfoldable pub redirect_in : Option F → Std F → Bool × Std F
  redirect_in file s =
      let (fd, fds') = open_file s.fds file in backup_in fd (record s { fds = fds' })

restore_out : {F : Type 0} → Std F → Std F
restore_out s = if s.saved_out == stdout_fileno then s else record s {
  fds = close (dup2 s.fds s.saved_out stdout_fileno) s.saved_out;
  saved_out = stdout_fileno;
}

restore_in : {F : Type 0} → Std F → Std F
restore_in s = if s.saved_in == stdin_fileno then s else record s {
  fds = close (dup2 s.fds s.saved_in stdin_fileno) s.saved_in;
  saved_in = stdin_fileno;
}

unfoldable pub restore_std : {F : Type 0} → Std F → Std F
unfolding restore_out restore_in
restore_std s = restore_in (restore_out s)
