-- ===== src/Registry/Entries.antt =====
-- The loops over entries: what they find, what they change, and what they leave alone.
use buckey.Common.{
  ◌≡◌, refl, Option, none, some, List, [], ◌∷◌, map, arith, if◌then◌else◌, String, str_eq,
  str_eq_iff,
}
use buckey.Registry.{Part, Entry, find, act_on}

module _ {State W : Type 0} (P : Part State W) where
  open P use {name}

  abbrev pub names : List (Entry P) → List String
  names = map λ e. name e.1

  -- An action on an entry that does not rename its object.
  abbrev pub KeepsEntryName : (Entry P → W → Entry P × W) → Type 0
  KeepsEntryName f = (e : Entry P) (w : W) → name (f e w).0.1 ≡ name e.1

  pub names-act_on :
      (k : String) (f : Entry P → W → Entry P × W) (es : List (Entry P)) (w : W)
      → KeepsEntryName f
      → names (act_on P k f es w).0 ≡ names es
  unfolding act_on
  names-act_on k f [] w h = refl
  names-act_on k f ((on, s) ∷ es) w h = ground (arith, h (on, s) w, names-act_on k f es w h)

  abbrev pub changed : (Entry P → W → Entry P × W) → W → Option (Entry P) → Option (Entry P)
  changed f w none = none
  changed f w (some e) = some (f e w).0

  abbrev pub hub_after : (Entry P → W → Entry P × W) → W → Option (Entry P) → W
  hub_after f w none = w
  hub_after f w (some e) = (f e w).1

  pub find-act_on :
      (k j : String) (f : Entry P → W → Entry P × W) (es : List (Entry P)) (w : W)
      → KeepsEntryName f
      → find P j (act_on P k f es w).0
        ≡ (if str_eq k j then changed f w (find P j es) else find P j es)
  unfolding find act_on
  find-act_on k j f [] w h = ground arith
  find-act_on k j f ((on, s) ∷ es) w h = ground (
    arith,
    h (on, s) w,
    str_eq_iff k j,
    str_eq_iff (name s) k,
    str_eq_iff (name s) j,
    find-act_on k j f es w h,
  )

  pub hub-act_on :
      (k : String) (f : Entry P → W → Entry P × W) (es : List (Entry P)) (w : W)
      → (act_on P k f es w).1 ≡ hub_after f w (find P k es)
  unfolding find act_on
  hub-act_on k f [] w = refl
  hub-act_on k f ((on, s) ∷ es) w = ground (arith, hub-act_on k f es w)
