-- ===== src/Shell/Background/Join.antt =====
-- `process` of shell.c against the joining of command lines.
use epfl_ba6_os.Prelude.{
  ℕ, ◌+◌, ◌≡◌, refl, sym, ap, ◌∙◌, List, [], ◌∷◌, ◌++◌, append-nil, append_assoc, Bool, true, false,
  not, ◌&&◌, some, ◌==◌, arith, subst, ==_iff, Bool-cases, inl, inr,
}
use epfl_ba6_os.Shell.Background.{amp, starts_amp, add_job, process_from, process}

-- Command lines with `&` between them, and the last one behind them.
abbrev pub join : List (List ℕ) → List ℕ → List ℕ
join [] last = last
join (job ∷ jobs) last = job ++ amp ∷ join jobs last

-- A text in which each `&` is half of `&&`, as it is read from the left; `second` says whether the
-- first half has been read.
unfoldable pub paired : Bool → List ℕ → Bool
paired second [] = not second
paired true (b ∷ bs) = b == amp && paired false bs
paired false (b ∷ bs) = paired (b == amp) bs

-- Job lines and a last line that are in pairs, where no line is followed by `&&`. `second` is for the
-- first of them.
abbrev pub IsCut : Bool → List (List ℕ) → List ℕ → Type 0
IsCut second [] last = paired second last ≡ true
IsCut second (job ∷ jobs) last =
    (paired second job ≡ true) × (starts_amp (join jobs last) ≡ false) × IsCut false jobs last

starts_amp-paired : (seg rest : List ℕ) → paired true seg ≡ true → starts_amp (seg ++ rest) ≡ true
unfolding paired
starts_amp-paired [] rest h = absurd cc
starts_amp-paired (b ∷ seg) rest h = ground (arith, h)

module _ (fork : ℕ → Bool) where
  -- Over a text in pairs the loop starts no job.
  process_from-paired :
      (n : ℕ) (line : List ℕ) (second : Bool) (seg rest : List ℕ)
      → paired second seg ≡ true
      → process_from fork n line second (seg ++ rest) ≡ process_from fork n (line ++ seg) false rest
  unfolding process_from paired
  process_from-paired n line true [] rest h = absurd cc
  process_from-paired n line false [] rest h = rw (append-nil line) refl
  process_from-paired n line true (b ∷ seg) rest h =
      process_from-paired n (line ++ b ∷ []) false seg rest (ground (arith, h))
      ∙ ap (λ (l : List ℕ). process_from fork n l false rest) (append_assoc line (b ∷ []) seg)
  process_from-paired n line false (b ∷ seg) rest h = elim (Bool-cases (b == amp)) [
    | inl e ↦
        rw (e, starts_amp-paired seg rest (subst (λ s. paired s seg ≡ true) e h))
          (process_from-paired n (line ++ b ∷ []) true seg rest
              (subst (λ s. paired s seg ≡ true) e h)
            ∙ ap (λ (l : List ℕ). process_from fork n l false rest)
                (append_assoc line (b ∷ []) seg))
    | inr e ↦ rw e (
        process_from-paired n (line ++ b ∷ []) false seg rest (subst (λ s. paired s seg ≡ true) e h)
        ∙ ap (λ (l : List ℕ). process_from fork n l false rest) (append_assoc line (b ∷ []) seg))
  ]

  process_from-alone :
      (n : ℕ) (line rest : List ℕ)
      → fork n ≡ true
      → starts_amp rest ≡ false
      → process_from fork n line false (amp ∷ rest)
        ≡ add_job line (process_from fork (n + 1) [] false rest)
  unfolding process_from
  process_from-alone n line rest ok e = rw (e, ok) refl

  module _ (ok : (n : ℕ) → fork n ≡ true) where
    process_from-join :
        (n : ℕ) (jobs : List (List ℕ)) (last : List ℕ)
        → IsCut false jobs last
        → process_from fork n [] false (join jobs last)
          ≡ record { jobs = jobs; foreground = some last }
    unfolding process_from add_job
    process_from-join n [] last h =
        ap (λ (l : List ℕ). process_from fork n [] false l) (sym (append-nil last))
        ∙ process_from-paired n [] false last [] h
    process_from-join n (job ∷ jobs) last (h, e, c) =
        process_from-paired n [] false job (amp ∷ join jobs last) h
        ∙ process_from-alone n job (join jobs last) (ok n) e
        ∙ ap (add_job job) (process_from-join (n + 1) jobs last c)

    -- If no fork fails, `process` on command lines in pairs that are joined by `&`, where no `&` of
    -- the joining is followed by another, starts exactly these lines but the last as jobs, in
    -- order, and goes on with the last.
    pub process-join :
        (jobs : List (List ℕ)) (last : List ℕ)
        → IsCut false jobs last
        → process fork (join jobs last) ≡ record { jobs = jobs; foreground = some last }
    unfolding process
    process-join jobs last c = process_from-join 0 jobs last c

-- A byte before the first of the lines.
push :
    (b : ℕ)
    → (second : Bool) (next : Bool) (bs : List ℕ)
    → ((s : List ℕ) → paired next s ≡ true → paired second (b ∷ s) ≡ true)
    → ((jobs : List (List ℕ)) × (last : List ℕ) × IsCut next jobs last × (join jobs last ≡ bs))
    → ((jobs : List (List ℕ)) × (last : List ℕ) × IsCut second jobs last
        × (join jobs last ≡ b ∷ bs))
push b second next bs f ([], last, c, q) = ([], b ∷ last, f last c, ap (λ (l : List ℕ). b ∷ l) q)
push b second next bs f (job ∷ jobs, last, c, q) =
    ((b ∷ job) ∷ jobs, last, (f job c.0, c.1, c.2), ap (λ (l : List ℕ). b ∷ l) q)

-- An empty line before the others.
IsCut-here :
    (b : ℕ) (bs : List ℕ)
    → b == amp ≡ true
    → starts_amp bs ≡ false
    → ((jobs : List (List ℕ)) × (last : List ℕ) × IsCut false jobs last × (join jobs last ≡ bs))
    → (jobs : List (List ℕ)) × (last : List ℕ) × IsCut false jobs last × (join jobs last ≡ b ∷ bs)
unfolding paired
IsCut-here b bs e d (jobs, last, c, q) = (
  [] ∷ jobs,
  last,
  (refl, subst (λ (l : List ℕ). starts_amp l ≡ false) (sym q) d, c),
  ap (λ (l : List ℕ). amp ∷ l) q ∙ ap (λ (a : ℕ). a ∷ bs) (sym ((==_iff b amp).0 e)),
)

IsCut-exists :
    (second : Bool) (p : List ℕ)
    → (second ≡ true → starts_amp p ≡ true)
    → (jobs : List (List ℕ)) × (last : List ℕ) × IsCut second jobs last × (join jobs last ≡ p)
unfolding paired
IsCut-exists false [] h = ([], [], refl, refl)
IsCut-exists true [] h = absurd (let k = h refl in cc)
IsCut-exists true (b ∷ bs) h =
    push b true false bs (λ s k. rw (h refl) k) (IsCut-exists false bs (λ k. absurd cc))
IsCut-exists false (b ∷ bs) h = elim (Bool-cases (b == amp)) [
  | inr e ↦ push b false false bs (λ s k. rw e k) (IsCut-exists false bs (λ k. absurd cc))
  | inl e ↦ elim (Bool-cases (starts_amp bs)) [
    | inl d ↦ push b false true bs (λ s k. rw e k) (IsCut-exists true bs (λ k. d))
    | inr d ↦ IsCut-here b bs e d (IsCut-exists false bs (λ k. absurd cc))
  ]
]

-- If no fork fails, `process` loses nothing of any line: joined by `&`, the jobs that it starts and
-- the line that it goes on with are the line that it was given. In each of them every `&` is half
-- of `&&`.
pub process-IsCut :
    (fork : ℕ → Bool) (line : List ℕ)
    → ((n : ℕ) → fork n ≡ true)
    → (jobs : List (List ℕ)) × (last : List ℕ) × (join jobs last ≡ line)
      × IsCut false jobs last
      × (process fork line ≡ record { jobs = jobs; foreground = some last })
process-IsCut fork line ok =
    let (jobs, last, c, q) = IsCut-exists false line (λ k. absurd cc) in
    (
      jobs,
      last,
      q,
      c,
      subst (λ (l : List ℕ). process fork l ≡ record { jobs = jobs; foreground = some last }) q
          (process-join fork ok jobs last c),
    )
