-- ===== src/Vfat/Mount.antt =====
-- The start of vfat.c: `vfat_opt_args`, and `main` up to the call of `fuse_main`.
use epfl_ba6_os.Prelude.{
  ℕ, ◌≡◌, refl, List, [], ◌∷◌, ◌++◌, Bool, true, false, Option, some, none, map,
}
use epfl_ba6_os.Vfat.Layout.{Vfat}
use epfl_ba6_os.Vfat.Init.{
  InitResult, ready, open_failed, no_boot_sector, fat12, fat16, bad_signature, division_by_zero,
  vfat_init,
}
use epfl_ba6_os.Vfat.Directory.{Listing, vfat_read_root_directory}

-- `key == FUSE_OPT_KEY_NONOPT`, `f->dev` and `arg`: the result and the new `f->dev`.
unfoldable pub vfat_opt_args : Bool → Option (List ℕ) → List ℕ → ℕ × Option (List ℕ)
vfat_opt_args true none arg = (0, some arg)
vfat_opt_args true (some dev) arg = (1, some dev)
vfat_opt_args false dev arg = (1, dev)

-- `fuse_opt_parse` calls it for each argument in turn, and says which is no option.
unfoldable pub parse_args : List (Bool × List ℕ) → Option (List ℕ) → Option (List ℕ)
unfolding vfat_opt_args
parse_args [] dev = dev
parse_args ((nonopt, arg) ∷ args) dev = parse_args args (vfat_opt_args nonopt dev arg).1

-- How `main` gets on: by `errx` for want of a device, by an exit in `vfat_init`, by a read through
-- `f->boot_sector == NULL`, or with what the read of the root directory ends with.
pub data Start : Type 0 where
  missing_parameter null_boot_sector : Start
  exits : InitResult → Start
  lists : Listing → Start

-- What follows `vfat_init`, which returns also where it got no memory.
unfoldable pub after_init : (Vfat → Listing) → InitResult → Start
after_init read_root (ready f) = lists (read_root f)
after_init read_root no_boot_sector = null_boot_sector
after_init read_root open_failed = exits open_failed
after_init read_root fat12 = exits fat12
after_init read_root fat16 = exits fat16
after_init read_root bad_signature = exits bad_signature
after_init read_root division_by_zero = exits division_by_zero

-- `device` is what `open` finds under a name, `boot_memory` what `malloc` returns for the boot
-- sector; the others are as for `vfat_read_root_directory`.
module _ (device : List ℕ → Option (List ℕ)) (boot_memory : Option (List ℕ)) (memory : ℕ → List ℕ)
    (freed : ℕ → ℕ) where
  start_on : ℕ → Option (List ℕ) → Start
  unfolding after_init
  start_on fuel none = missing_parameter
  start_on fuel (some dev) =
      after_init (vfat_read_root_directory memory freed fuel) (vfat_init (device dev) boot_memory)

  unfoldable pub main : ℕ → List (Bool × List ℕ) → Start
  unfolding start_on parse_args
  main fuel args = start_on fuel (parse_args args none)

-- Options do not set the device, and a device that is set stays.
parse_args-set :
    (args : List (Bool × List ℕ)) (dev : List ℕ) → parse_args args (some dev) ≡ some dev
unfolding parse_args vfat_opt_args
parse_args-set [] dev = refl
parse_args-set ((true, arg) ∷ args) dev = parse_args-set args dev
parse_args-set ((false, arg) ∷ args) dev = parse_args-set args dev

-- The device is the first argument that is no option.
pub parse_args-first :
    (options : List (List ℕ)) (dev : List ℕ) (args : List (Bool × List ℕ))
    → parse_args (map (λ (a : List ℕ). (false, a)) options ++ (true, dev) ∷ args) none ≡ some dev
unfolding parse_args vfat_opt_args
parse_args-first [] dev args = parse_args-set args dev
parse_args-first (o ∷ options) dev args = parse_args-first options dev args
