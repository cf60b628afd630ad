-- ===== src/Protocol/Clock.antt =====
-- The timers as a whole: the ids, the running timers, and the table from ids to addresses.
use name_spread.Prelude.{
  some_injective, ℕ, ◌+◌, ◌≡◌, refl, false, none, some, List, [], ◌∷◌, ◌++◌, ◌==◌, length,
  get_elem?, set, length-set, arith, All, All-append, All-middle, ap, ◌∙◌, sym, inl, inr,
  Bool-cases, if◌then◌else◌,
}
use name_spread.Text.{Str, decimal}
use name_spread.Text.Decimal.{decimal_injective}
use name_spread.Machine.Cfu.{Cfu, key_eq, key_eq_iff}
use name_spread.Machine.World.{Alarm}
use name_spread.Timers.{n_timers}
use name_spread.Timers.Slots.{IsIds, IsIds-set, set-other, set-same}

-- No timer of the list points to the element.
abbrev pub Spares : ℕ → List Alarm → Type 0
Spares i al = All (λ a. (i == a.slot) ≡ false) al

-- No two timers point to one element.
abbrev pub Spaced : List Alarm → Type 0
Spaced [] = Unit
Spaced (a ∷ al) = Spares a.slot al × Spaced al

-- Each timer points to an element that holds its own id.
abbrev pub Armed : List ℕ → List Alarm → Type 0
Armed ids al = All (λ a. get_elem? ids a.slot ≡ some (a.slot + 1)) al

Spaced-append : (al : List Alarm) (a : Alarm) → Spaced al → Spares a.slot al → Spaced (al ++ a ∷ [])
Spaced-append [] a sp spare = (tt, tt)
Spaced-append (b ∷ al) a (far, sp) (ne, spare) = (
  All-append (λ c. (b.slot == c.slot) ≡ false) al (a ∷ []) far (ground (arith, ne), tt),
  Spaced-append al a sp spare,
)

pub Armed-Spares :
    (ids : List ℕ) (al : List Alarm) (i : ℕ) → Armed ids al → get_elem? ids i ≡ some 0 → Spares i al
Armed-Spares ids [] i armed free = tt
Armed-Spares ids (a ∷ al) i (at, armed) free =
    (ground (arith, Bool-cases (i == a.slot)), Armed-Spares ids al i armed free)

pub Armed-set :
    (ids : List ℕ) (al : List Alarm) (i v : ℕ) → Spares i al → Armed ids al → Armed (set ids i v) al
Armed-set ids [] i v spare armed = tt
Armed-set ids (a ∷ al) i v (ne, spare) (at, armed) =
    (set-other ids i a.slot v ne ∙ at, Armed-set ids al i v spare armed)

-- A timer of the list without it.
pub Spaced-remove :
    (before after : List Alarm) (a : Alarm)
    → Spaced (before ++ a ∷ after)
    → Spaced (before ++ after) × Spares a.slot (before ++ after)
Spaced-remove [] after a (far, sp) = (sp, far)
Spaced-remove (b ∷ before) after a (far, sp) =
    let (ne, far') = All-middle (λ c. (b.slot == c.slot) ≡ false) before after a far in
    let (sp', spare) = Spaced-remove before after a sp in ((far', sp'), (ground (arith, ne), spare))

-- The entries of two timers are under one key only if the timers have one id.
decimal-key : (i j : ℕ) → key_eq (some (decimal (i + 1))) (some (decimal (j + 1))) ≡ (i == j)
decimal-key i j =
    let injective = λ (e : some (decimal (i + 1)) ≡ some (decimal (j + 1))).
      decimal_injective (i + 1) (j + 1) (some_injective e) in
    elim (Bool-cases (i == j)) [
      | inl e ↦
          let q : i ≡ j = ground (arith, e) in
          (key_eq_iff (some (decimal (i + 1))) (some (decimal (j + 1)))).1
            (ap (λ n. some (decimal (n + 1))) q)
          ∙ sym e
      | inr ne ↦ elim (Bool-cases (key_eq (some (decimal (i + 1))) (some (decimal (j + 1))))) [
        | inl k ↦ absurd (
            ground (
              arith,
              ne,
              injective ((key_eq_iff (some (decimal (i + 1))) (some (decimal (j + 1)))).0 k),
            ))
        | inr nk ↦ nk ∙ sym ne
      ]
    ]

module _ ⦃pnr_table : Cfu ℕ⦄ ⦃timer_table : Cfu Str⦄ where
  -- Each id is 0 or its index plus 1; a taken id has an address in the table of timers, and a free one
  -- has no entry; each running timer points to its own taken id.
  pub record IsClock (ids : List ℕ) (timers : timer_table.Table) (alarms : List Alarm)
      : Type 0 where
    pub ids_ok : IsIds ids
    pub size : length ids ≡ n_timers
    pub entry :
        (i : ℕ)
        → get_elem? ids i ≡ some (i + 1)
        → (dst : Str) × (timer_table.get timers (some (decimal (i + 1))) ≡ some dst)
    pub no_entry :
        (i : ℕ) → get_elem? ids i ≡ some 0 → timer_table.get timers (some (decimal (i + 1))) ≡ none
    pub armed : Armed ids alarms
    pub spaced : Spaced alarms

  get-put_id :
      (timers : timer_table.Table) (i j : ℕ) (dst : Str)
      → timer_table.get
          (timer_table.put timers (some (decimal (i + 1))) dst)
          (some (decimal (j + 1)))
        ≡ (if i == j then some dst else timer_table.get timers (some (decimal (j + 1))))
  get-put_id timers i j dst =
      timer_table.get-put timers (some (decimal (i + 1))) dst (some (decimal (j + 1)))
      ∙ ap (λ b. if b then some dst else timer_table.get timers (some (decimal (j + 1))))
          (decimal-key i j)

  get-delete_id :
      (timers : timer_table.Table) (i j : ℕ)
      → timer_table.get (timer_table.delete timers (decimal (i + 1))) (some (decimal (j + 1)))
        ≡ (if i == j then none else timer_table.get timers (some (decimal (j + 1))))
  get-delete_id timers i j =
      timer_table.get-delete timers (decimal (i + 1)) (some (decimal (j + 1)))
      ∙ ap (λ b. if b then none else timer_table.get timers (some (decimal (j + 1))))
          (decimal-key i j)

  module _ (ids : List ℕ) (timers : timer_table.Table) (alarms : List Alarm)
      (clock : IsClock ids timers alarms) (i : ℕ) where
    -- A free id is taken for an address; no timer runs for it yet.
    pub IsClock-take :
        (dst : Str)
        → get_elem? ids i ≡ some 0
        → IsClock (set ids i (i + 1)) (timer_table.put timers (some (decimal (i + 1))) dst) alarms
    IsClock-take dst free = record {
      ids_ok = IsIds-set ids i (i + 1) (inr refl) clock.ids_ok;
      size = length-set ids i (i + 1) ∙ clock.size;
      entry = λ j at. elim (Bool-cases (i == j)) [
        | inl e ↦ (dst, get-put_id timers i j dst ∙ rw e refl)
        | inr ne ↦
            let (d, q) = clock.entry j (sym (set-other ids i j (i + 1) ne) ∙ at) in
            (d, get-put_id timers i j dst ∙ rw ne q)
      ];
      no_entry = λ j at. elim (Bool-cases (i == j)) [
        | inl e ↦ absurd (omega (arith, set-same ids i j (i + 1) 0 e at))
        | inr ne ↦
            get-put_id timers i j dst
            ∙ rw ne (clock.no_entry j (sym (set-other ids i j (i + 1) ne) ∙ at))
      ];
      armed =
          Armed-set ids alarms i (i + 1) (Armed-Spares ids alarms i clock.armed free) clock.armed;
      spaced = clock.spaced;
    }

    -- A timer is started for a taken id that has none.
    pub IsClock-arm :
        (secs : ℕ)
        → get_elem? ids i ≡ some (i + 1)
        → Spares i alarms
        → IsClock ids timers (alarms ++ record { slot = i; secs = secs } ∷ [])
    IsClock-arm secs at spare = record {
      ids_ok = clock.ids_ok;
      size = clock.size;
      entry = clock.entry;
      no_entry = clock.no_entry;
      armed =
          All-append (λ a. get_elem? ids a.slot ≡ some (a.slot + 1)) alarms
            (record { slot = i; secs = secs } ∷ []) clock.armed (at, tt);
      spaced = Spaced-append alarms (record { slot = i; secs = secs }) clock.spaced spare;
    }

    -- A taken id whose timer has run out is freed.
    pub IsClock-free :
        get_elem? ids i ≡ some (i + 1)
        → Spares i alarms
        → IsClock (set ids i 0) (timer_table.delete timers (decimal (i + 1))) alarms
    IsClock-free at spare = record {
      ids_ok = IsIds-set ids i 0 (inl refl) clock.ids_ok;
      size = length-set ids i 0 ∙ clock.size;
      entry = λ j at'. elim (Bool-cases (i == j)) [
        | inl e ↦ absurd (omega (arith, set-same ids i j 0 (j + 1) e at'))
        | inr ne ↦
            let (d, q) = clock.entry j (sym (set-other ids i j 0 ne) ∙ at') in
            (d, get-delete_id timers i j ∙ rw ne q)
      ];
      no_entry = λ j at'. elim (Bool-cases (i == j)) [
        | inl e ↦ get-delete_id timers i j ∙ rw e refl
        | inr ne ↦
            get-delete_id timers i j ∙ rw ne (clock.no_entry j (sym (set-other ids i j 0 ne) ∙ at'))
      ];
      armed = Armed-set ids alarms i 0 spare clock.armed;
      spaced = clock.spaced;
    }
