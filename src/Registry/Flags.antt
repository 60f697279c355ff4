-- ===== src/Registry/Flags.antt =====
-- Enabling entries by name: which names are listed as enabled afterwards.
use mathlib.Core.Path.{fun_ext}
use buckey.Common.{
  ◌≡◌, refl, sym, ap, ◌∙◌, subst, inl, inr, Bool, true, false, ◌||◌, List, [], ◌∷◌, arith,
  if◌then◌else◌, Bool-cases, All, String, str_eq, str_eq_iff,
}
use buckey.Registry.{Part, Entry, act_on, names_where}
use buckey.Registry.Entries.{names, KeepsEntryName, names-act_on}

-- The names of some entries, of which no two are the same.
abbrev pub Distinct : List String → Type 0
Distinct [] = Unit
Distinct (n ∷ ns) = All (λ m. str_eq m n ≡ false) ns × Distinct ns

or_regroup : (a b c : Bool) → (a || (b || c)) ≡ ((a || b) || c)
or_regroup true b c = refl
or_regroup false b c = refl

or_none : (a : Bool) → (a || false) ≡ a
or_none true = refl
or_none false = refl

contains : String → List String → Bool
contains n [] = false
contains n (m ∷ ns) = str_eq n m || contains n ns

module _ {State W : Type 0} (P : Part State W) where
  open P use {name}

  -- The names of the entries that are enabled, or of which a further test holds.
  listed : (String → Bool) → List (Entry P) → List String
  listed extra [] = []
  listed extra ((on, s) ∷ es) =
      if on || extra (name s) then name s ∷ listed extra es else listed extra es

  listed_same :
      (f g : String → Bool) (es : List (Entry P))
      → All (λ n. f n ≡ g n) (names P es)
      → listed f es ≡ listed g es
  unfolding listed
  listed_same f g [] h = refl
  listed_same f g ((on, s) ∷ es) (h, hs) = ground (arith, listed_same f g es hs)

  listed_none : (es : List (Entry P)) → listed (λ n. false) es ≡ names_where P (λ e. e.0) es
  unfolding listed names_where
  listed_none [] = refl
  listed_none ((on, s) ∷ es) = ground (arith, listed_none es)

  or_false-All :
      (f : String → Bool) (k : String) (ns : List String)
      → All (λ m. str_eq m k ≡ false) ns
      → All (λ n. f n ≡ (str_eq n k || f n)) ns
  or_false-All f k [] h = tt
  or_false-All f k (n ∷ ns) (h, hs) = (ground arith, or_false-All f k ns hs)

  -- The actions one after the other, on the entries of these names.
  unfoldable pub act_on_each :
      (Entry P → W → Entry P × W) → List String → List (Entry P) → W → List (Entry P) × W
  act_on_each f [] es w = (es, w)
  act_on_each f (k ∷ ks) es w = act_on_each f ks (act_on P k f es w).0 (act_on P k f es w).1

  -- An action that enables the first entry with a name.
  module _ (f : Entry P → W → Entry P × W) (keeps : KeepsEntryName P f)
      (sets : (e : Entry P) (w : W) → (f e w).0.0 ≡ true) where
    listed-act_on :
        (extra : String → Bool) (k : String) (es : List (Entry P)) (w : W)
        → Distinct (names P es)
        → listed extra (act_on P k f es w).0 ≡ listed (λ n. str_eq n k || extra n) es
    unfolding listed act_on
    listed-act_on extra k [] w d = refl
    listed-act_on extra k ((on, s) ∷ es) w (d, ds) = elim (Bool-cases (str_eq (name s) k)) [
      | inl e ↦
          let same : name s ≡ k = (str_eq_iff (name s) k).0 e in
          let rest =
            listed_same extra (λ n. str_eq n k || extra n) es
              (or_false-All extra k (names P es)
                (subst (λ j. All (λ m. str_eq m j ≡ false) (names P es)) same d)) in
          rw e (ground (arith, sets (on, s) w, keeps (on, s) w, rest))
      | inr e ↦ rw e (ground (arith, listed-act_on extra k es w ds))
    ]

    listed-act_on_each :
        (extra : String → Bool) (ks : List String) (es : List (Entry P)) (w : W)
        → Distinct (names P es)
        → listed extra (act_on_each f ks es w).0 ≡ listed (λ n. contains n ks || extra n) es
    unfolding act_on_each contains
    listed-act_on_each extra [] es w d = refl
    listed-act_on_each extra (k ∷ ks) es w d =
        listed-act_on_each extra ks (act_on P k f es w).0 (act_on P k f es w).1
          (rw (names-act_on P k f es w keeps) d)
        ∙ listed-act_on (λ n. contains n ks || extra n) k es w d
        ∙ ap (λ p. listed p es) (fun_ext (λ n. or_regroup (str_eq n k) (contains n ks) (extra n)))

  not_contained :
      (k : String) (es : List (Entry P))
      → All (λ m. str_eq m k ≡ false) (names P es)
      → contains k (names_where P (λ e. e.0) es) ≡ false
  unfolding contains names_where
  not_contained k [] h = refl
  not_contained k ((on, s) ∷ es) (h, hs) =
      ground (arith, not_contained k es hs, str_eq_iff (name s) k, str_eq_iff k (name s))

  or_distinct :
      (f : String → Bool) (k : String) (ns : List String)
      → All (λ m. str_eq m k ≡ false) ns
      → All (λ n. (str_eq n k || f n) ≡ f n) ns
  or_distinct f k [] h = tt
  or_distinct f k (n ∷ ns) (h, hs) = (ground arith, or_distinct f k ns hs)

  -- Entries that are all disabled, with the names of others, list the enabled ones of those.
  listed_again :
      (es old : List (Entry P))
      → names P es ≡ names P old
      → All (λ e. e.0 ≡ false) es
      → Distinct (names P old)
      → listed (λ n. contains n (names_where P (λ e. e.0) old)) es ≡ names_where P (λ e. e.0) old
  unfolding listed names_where contains
  listed_again [] [] e off d = refl
  listed_again [] (x ∷ old) e off d = cc
  listed_again (x ∷ es) [] e off d = cc
  listed_again ((on, s) ∷ es) ((true, t) ∷ old) e (o, off) (d, ds) =
      let same : name s ≡ name t = cc in
      let rest : names P es ≡ names P old = cc in
      let tail =
        listed_same (λ n. str_eq n (name t) || contains n (names_where P (λ e. e.0) old))
          (λ n. contains n (names_where P (λ e. e.0) old)) es
          (or_distinct (λ n. contains n (names_where P (λ e. e.0) old)) (name t) (names P es)
            (rw rest d)) in
      ground (arith, tail, listed_again es old rest off ds, str_eq_iff (name s) (name t))
  listed_again ((on, s) ∷ es) ((false, t) ∷ old) e (o, off) (d, ds) =
      let same : name s ≡ name t = cc in
      let rest : names P es ≡ names P old = cc in
      ground (arith, listed_again es old rest off ds, not_contained (name t) old d)

  -- If the entries are all disabled and have the names of others, which are distinct, then enabling
  -- them by the list of the others' enabled names gives that list again.
  pub names_where-act_on_each :
      (f : Entry P → W → Entry P × W)
      → KeepsEntryName P f
      → ((e : Entry P) (w : W) → (f e w).0.0 ≡ true)
      → (es old : List (Entry P)) (w : W) → names P es ≡ names P old
      → All (λ e. e.0 ≡ false) es
      → Distinct (names P old)
      → names_where P (λ e. e.0) (act_on_each f (names_where P (λ e. e.0) old) es w).0
        ≡ names_where P (λ e. e.0) old
  names_where-act_on_each f keeps sets es old w e off d =
      let ks = names_where P (λ e. e.0) old in
      sym (listed_none (act_on_each f ks es w).0)
      ∙ listed-act_on_each f keeps sets (λ n. false) ks es w (rw e d)
      ∙ ap (λ p. listed p es) (fun_ext (λ n. or_none (contains n ks)))
      ∙ listed_again es old e off d
