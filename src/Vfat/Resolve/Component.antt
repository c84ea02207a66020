-- ===== src/Vfat/Resolve/Component.antt =====
-- What `vfat_resolve_dir` of vfat.c finds for a component that is not the path's last one.
use epfl_ba6_os.Prelude.{
  ℕ, suc, ◌+◌, ◌≡◌, ◌≢◌, ◌<◌, refl, sym, ap, ◌∙◌, inl, inr, List, [], ◌∷◌, ◌++◌, false, some, none,
  ◌==◌, ◌>>=◌, Bool-cases, append-nil, append_assoc, drop, length, c_str, str_eq, str_eq_iff, All,
  arith,
}
use epfl_ba6_os.Vfat.Layout.{Vfat, VfatDirentry, vfat_attr_directory}
use epfl_ba6_os.Vfat.Names.{slash, split_path_root}
use epfl_ba6_os.Vfat.Names.Paths.{IsNameByte, split_path_root_lem, drop-append_middle}
use epfl_ba6_os.Vfat.Resolve.{strlen, dir_name_text, find_entry, vfat_resolve_dir}

c_str_lem : (text rest : List ℕ) → All (λ b. b ≢ 0) text → c_str (text ++ 0 ∷ rest) ≡ text
unfolding c_str
c_str_lem [] rest h = refl
c_str_lem (b ∷ text) rest h =
    let other : b == 0 ≡ false = ground (arith, h.0) in
    rw other (ap (λ (bs : List ℕ). b ∷ bs) (c_str_lem text rest h.1))

strlen_lem :
    (text rest : List ℕ) → All (λ b. b ≢ 0) text → strlen (text ++ 0 ∷ rest) ≡ some (length text)
unfolding strlen
strlen_lem [] rest h = refl
strlen_lem (b ∷ text) rest h =
    let other : b == 0 ≡ false = ground (arith, h.0) in
    rw (other, strlen_lem text rest h.1) (ap some (omega arith))

-- An entry whose field for the name holds a text and a NUL.
pub record IsNamed (name : List ℕ) (e : VfatDirentry) : Type 0 where
  pub padding : List ℕ
  pub field : e.dir_name ≡ name ++ 0 ∷ padding
  pub text : All (λ b. b ≢ 0) name

-- The text of a field that is followed by other bytes.
field_text :
    (field ext next behind name padding : List ℕ)
    → field ≡ name ++ 0 ∷ padding
    → All (λ b. b ≢ 0) name
    → c_str (((field ++ ext) ++ next) ++ behind) ≡ name
field_text field ext next behind name padding e h =
    ap c_str (
      append_assoc (field ++ ext) next behind
      ∙ append_assoc field ext (next ++ behind)
      ∙ ap (λ (bs : List ℕ). bs ++ (ext ++ (next ++ behind))) e
      ∙ append_assoc name (0 ∷ padding) (ext ++ (next ++ behind)))
    ∙ c_str_lem name (padding ++ (ext ++ (next ++ behind))) h

path_text :
    (comp more : List ℕ)
    → All IsNameByte comp
    → All (λ b. b ≢ 0) more
    → All (λ b. b ≢ 0) (comp ++ slash ∷ more)
path_text [] more c m = ((λ e. omega (arith, e)), m)
path_text (b ∷ comp) more c m = (c.0.0, path_text comp more c.1 m)

name_text : (comp : List ℕ) → All IsNameByte comp → All (λ b. b ≢ 0) comp
name_text [] c = tt
name_text (b ∷ comp) c = (c.0.0, name_text comp c.1)

module _ (beyond : VfatDirentry → List ℕ) where
  dir_name_text_lem :
      (name : List ℕ) (e : VfatDirentry) → IsNamed name e → dir_name_text beyond e ≡ name
  dir_name_text_lem name e n =
      field_text e.dir_name e.dir_ext _ (beyond e) name n.padding n.field n.text

  -- Entries with the name that is looked for are passed over.
  find_entry-named :
      (head : List ℕ) (es rest : List VfatDirentry)
      → All (IsNamed head) es
      → find_entry beyond head (es ++ rest) ≡ find_entry beyond head rest
  unfolding find_entry
  find_entry-named head [] rest h = refl
  find_entry-named head (e ∷ es) rest h =
      let same =
        (str_eq_iff head (dir_name_text beyond e)).1 (sym (dir_name_text_lem head e h.0)) in
      rw same (find_entry-named head es rest h.1)

  find_entry-other :
      (head other : List ℕ) (e : VfatDirentry) (rest : List VfatDirentry)
      → IsNamed other e
      → other ≢ head
      → find_entry beyond head (e ∷ rest) ≡ some e
  unfolding find_entry
  find_entry-other head other e rest n d =
      elim (Bool-cases (str_eq head (dir_name_text beyond e))) [
        | inl s ↦ absurd (
            d (
              sym (dir_name_text_lem other e n)
              ∙ sym ((str_eq_iff head (dir_name_text beyond e)).0 s)))
        | inr s ↦ rw s refl
      ]

module _ (memory : ℕ → List ℕ) (freed : ℕ → ℕ) (stray : List VfatDirentry)
    (beyond : VfatDirentry → List ℕ) where
  -- A path is a slash, a component, a slash, and more text; the current directory holds entries with
  -- the component's name, and then perhaps others, the first of which has another name and is no
  -- directory. (Each name has a NUL behind it in its field.) Then `vfat_resolve_dir` returns 0: it
  -- passes over every entry that has the name, whether it be a directory or not, and with no other
  -- entry it changes nothing; otherwise the entry with the other name becomes the current one.
  pub vfat_resolve_dir-component :
      (records calls : ℕ) (comp more other : List ℕ) (f : Vfat) (es rest : List VfatDirentry)
      (e : VfatDirentry)
      → All IsNameByte comp
      → All (λ b. b ≢ 0) more
      → 0 < length more
      → All (IsNamed comp) es
      → IsNamed other e
      → other ≢ comp
      → e.dir_attr ≢ vfat_attr_directory
      → let buffer = slash ∷ (comp ++ slash ∷ (more ++ 0 ∷ [])) in
        (f.current_direntries_list ≡ es
          → vfat_resolve_dir memory freed stray beyond records (suc calls) buffer 0 f ≡ some (0, f))
        × (f.current_direntries_list ≡ es ++ e ∷ rest
            → vfat_resolve_dir memory freed stray beyond records (suc calls) buffer 0 f
              ≡ some (0, record f { current_direntry = some e }))
  unfolding vfat_resolve_dir
  vfat_resolve_dir-component records calls comp more other f es rest e c m long named o d file = (
    (λ l.
        (let found : find_entry beyond (c_str (drop 1 cut)) f.current_direntries_list ≡ none =
            looked_for l
            ∙ ap (find_entry beyond comp) (sym (append-nil es))
            ∙ find_entry-named beyond comp es [] named in
          rw (len, split, ◌>>=◌, left, ◌>>=◌, found) refl)),
    (λ l.
        (let found : find_entry beyond (c_str (drop 1 cut)) f.current_direntries_list ≡ some e =
            looked_for l
            ∙ find_entry-named beyond comp es (e ∷ rest) named
            ∙ find_entry-other beyond comp other e rest o d in
          rw (len, split, ◌>>=◌, left, ◌>>=◌, found, no_directory, text_left) refl)),
  )
    where
      buffer : List ℕ
      buffer = slash ∷ (comp ++ slash ∷ (more ++ 0 ∷ []))

      cut : List ℕ
      cut = slash ∷ (comp ++ 0 ∷ (more ++ 0 ∷ []))

      len : strlen buffer ≡ some (suc (length (comp ++ slash ∷ more)))
      len =
          ap (λ (bs : List ℕ). strlen (slash ∷ bs))
            (sym (append_assoc comp (slash ∷ more) (0 ∷ [])))
          ∙ strlen_lem (slash ∷ (comp ++ slash ∷ more)) []
              ((λ z. omega (arith, z)), path_text comp more c m)

      split :
          split_path_root buffer 0
          ≡ some (record { buffer = cut; path = 1 + length comp + 1; head = 1 })
      split = split_path_root_lem [] comp (more ++ 0 ∷ []) slash c (inr refl)

      left : strlen (drop (1 + length comp + 1) cut) ≡ some (length more)
      left =
          ap strlen (
            drop-append_middle (slash ∷ comp) (more ++ 0 ∷ []) 0 (1 + length comp + 1)
              (omega arith))
          ∙ strlen_lem more [] m

      head : c_str (comp ++ 0 ∷ (more ++ 0 ∷ [])) ≡ comp
      head = c_str_lem comp (more ++ 0 ∷ []) (name_text comp c)

      looked_for :
          {l : List VfatDirentry}
          → f.current_direntries_list ≡ l
          → find_entry beyond (c_str (drop 1 cut)) f.current_direntries_list
            ≡ find_entry beyond comp l
      looked_for {l} e =
          ap (find_entry beyond (c_str (drop 1 cut))) e
          ∙ ap (λ (h : List ℕ). find_entry beyond h l) head

      no_directory : e.dir_attr == vfat_attr_directory ≡ false
      no_directory = ground (arith, file)

      text_left : length more == 0 ≡ false
      text_left = ground (arith, long)
