-- ===== src/Gen/Reachable/Walk.antt =====
-- cmd/gen/main.go: what a walk of collectReachable has set, and how walks follow one another.
use mathlib.Core.List.{Memᴰ}
use mathlib.Core.List.Memᴰ
use rom_server_poc.Prelude.{
  ℕ, ◌+◌, ◌≤◌, ◌<◌, ◌≡◌, sym, subst, ◌⊎◌, inl, inr, String, Bool, true, false, Bool-cases, some,
  List, map, [], ◌∷◌, ◌++◌, length, arith, eq_iff, str_eq, if◌then◌else◌,
}
use rom_server_poc.Prelude.Result.{Result, ok, err, ◌>>=◌}
use rom_server_poc.Protocol.Catalog.{Field, find_key, has_key}
use rom_server_poc.Gen.Classes.{GenError, slice_out_of_range, out_of_fuel, Layouts}
use rom_server_poc.Gen.Reachable.{element_type, Names}

abbrev pub types_of : List Field → List String
types_of fs = map (λ (f : Field). f.type) fs

-- The types that a walk from a type meets: itself, and those of the layouts that it names.
pub data Occurs (structs : Layouts) : String → String → Type 0 where
  itself : {t : String} → Occurs structs t t
  inside :
      {t t' u base : String} {layout : List Field}
      → element_type t ≡ ok base
      → find_key base structs ≡ some layout
      → Memᴰ t' (types_of layout)
      → Occurs structs t' u
      → Occurs structs t u

-- The layouts' names that are not yet set.
unfoldable pub unseen : Layouts → Names → ℕ
unfolding has_key
unseen [] seen = 0
unseen ((name, _) ∷ rest) seen = (if has_key name seen then 0 else 1) + unseen rest seen

abbrev pub Grows : Names → Names → Type 0
Grows seen out = (k : String) → has_key k seen ≡ true → has_key k out ≡ true

pub Grows-trans : (a b c : Names) → Grows a b → Grows b c → Grows a c
Grows-trans a b c h g k m = g k (h k m)

pub Grows-cons : (seen : Names) (base : String) → Grows seen (base ∷ seen)
unfolding has_key
Grows-cons seen base k h = ground arith

pub unseen-le :
    (structs : Layouts) (seen out : Names)
    → Grows seen out
    → unseen structs out ≤ unseen structs seen
unfolding unseen
unseen-le [] seen out h = omega arith
unseen-le ((name, l) ∷ rest) seen out h = ground (arith, h name, unseen-le rest seen out h)

pub has_key-cons_ne :
    (name base : String) (seen : Names)
    → str_eq name base ≡ false
    → has_key name (base ∷ seen) ≡ has_key name seen
unfolding has_key
has_key-cons_ne name base seen h = ground (arith, eq_iff name base, eq_iff base name)

pub has_key-cons_self : (base : String) (seen : Names) → has_key base (base ∷ seen) ≡ true
unfolding has_key
has_key-cons_self base seen = ground (arith, eq_iff base base)

step-lt :
    (b c : Bool) (m n : ℕ)
    → b ≡ true
    → c ≡ false
    → m ≤ n
    → (if b then 0 else 1) + m < (if c then 0 else 1) + n
step-lt b c m n hb hc h = ground arith

pub unseen-lt :
    (structs : Layouts) (base : String) (layout : List Field) (seen : Names)
    → find_key base structs ≡ some layout
    → has_key base seen ≡ false
    → unseen structs (base ∷ seen) < unseen structs seen
unfolding unseen find_key
unseen-lt [] base layout seen found fresh = cc
unseen-lt ((name, l) ∷ rest) base layout seen found fresh = elim (Bool-cases (str_eq name base)) [
  | inl same ↦
      let e : name ≡ base = (eq_iff name base).0 same in
      let fresh' : has_key name seen ≡ false = rw e fresh in
      let set : has_key name (base ∷ seen) ≡ true =
        subst (λ k. has_key k (base ∷ seen) ≡ true) (sym e) (has_key-cons_self base seen) in
      let others = unseen-le rest seen (base ∷ seen) (Grows-cons seen base) in
      step-lt (has_key name (base ∷ seen)) (has_key name seen) _ _ set fresh' others
  | inr different ↦
      let fewer = unseen-lt rest base layout seen (ground arith) fresh in
      rw (has_key-cons_ne name base seen different) (omega arith)
]

module _ (structs : Layouts) where
  -- The struct that a type names, if it names one, is set.
  abbrev pub Covered : Names → String → Type 0
  Covered out t =
      (base : String) (layout : List Field)
      → element_type t ≡ ok base
      → find_key base structs ≡ some layout
      → has_key base out ≡ true

  -- Some root's walk meets this type.
  abbrev pub Met : List String → String → Type 0
  Met roots u = (r : String) × Memᴰ r roots × Occurs structs r u

  -- The names that a walk from the roots leaves set, and those that were set before.
  pub record Walked (roots : List String) (seen out : Names) : Type 0 where
    pub grows : Grows seen out
    pub covers : (t : String) → Memᴰ t roots → Covered out t
    pub closed :
        (k : String) (layout : List Field)
        → has_key k out ≡ true
        → has_key k seen ≡ false
        → find_key k structs ≡ some layout
        → (t : String) → Memᴰ t (types_of layout)
        → Covered out t
    pub sound :
        (k : String)
        → has_key k out ≡ true
        → (has_key k seen ≡ true)
          ⊎ ((u : String) × (layout : List Field) × Met roots u
              × (element_type u ≡ ok k)
              × (find_key k structs ≡ some layout))

  -- A walk does not run out of fuel, and panics only on a type that it meets.
  abbrev pub Ends : List String → Names → Result GenError Names → Type 0
  Ends roots seen (ok out) = Walked roots seen out
  Ends roots seen (err slice_out_of_range) =
      (u : String) × Met roots u × (element_type u ≡ err slice_out_of_range)
  Ends roots seen (err out_of_fuel) = ⊥

  Covered-mono : (seen out : Names) (t : String) → Grows seen out → Covered seen t → Covered out t
  Covered-mono seen out t g c base layout e found = g base (c base layout e found)

  Met-left : (first last : List String) (u : String) → Met first u → Met (first ++ last) u
  Met-left first last u (s, m, o) = (s, Memᴰ.append_left last m, o)

  Met-right : (first last : List String) (u : String) → Met last u → Met (first ++ last) u
  Met-right first last u (s, m, o) = (s, Memᴰ.append_right first m, o)

  -- A walk after a walk.
  pub Walked-append :
      (first last : List String) (seen mid out : Names)
      → Walked first seen mid
      → Walked last mid out
      → Walked (first ++ last) seen out
  Walked-append first last seen mid out a b = record {
    grows = Grows-trans seen mid out a.grows b.grows;
    covers = λ t m. elim (Memᴰ.append_cases first m) [
      | inl early ↦ Covered-mono mid out t b.grows (a.covers t early)
      | inr late ↦ b.covers t late
    ];
    closed = λ k layout there fresh found t m. elim (Bool-cases (has_key k mid)) [
      | inl early ↦ Covered-mono mid out t b.grows (a.closed k layout early fresh found t m)
      | inr late ↦ b.closed k layout there late found t m
    ];
    sound = λ k there. elim (b.sound k there) [
      | inl early ↦ elim (a.sound k early) [
        | inl before ↦ inl before
        | inr (u, layout, met, e, found) ↦ inr (u, layout, Met-left first last u met, e, found)
      ]
      | inr (u, layout, met, e, found) ↦ inr (u, layout, Met-right first last u met, e, found)
    ];
  }

  Ends-mid :
      (first last : List String) (seen mid : Names) (rest : Result GenError Names)
      → Walked first seen mid
      → Ends last mid rest
      → Ends (first ++ last) seen rest
  Ends-mid first last seen mid (ok out) a b = Walked-append first last seen mid out a b
  Ends-mid first last seen mid (err slice_out_of_range) a (u, met, e) =
      (u, Met-right first last u met, e)
  Ends-mid first last seen mid (err out_of_fuel) a b = b

  pub Ends-append :
      (first last : List String) (seen : Names) (r : Result GenError Names)
      (next : Names → Result GenError Names)
      → Ends first seen r
      → ((mid : Names) → Grows seen mid → Ends last mid (next mid))
      → Ends (first ++ last) seen (r >>= next)
  Ends-append first last seen (ok mid) next a b =
      Ends-mid first last seen mid (next mid) a (b mid a.grows)
  Ends-append first last seen (err slice_out_of_range) next (u, met, e) b =
      (u, Met-left first last u met, e)
  Ends-append first last seen (err out_of_fuel) next a b = a

  -- Nothing is left to walk.
  pub Walked-nil : (seen : Names) → Walked [] seen seen
  Walked-nil seen = record {
    grows = λ k h. h;
    covers = λ t m. absurd (Memᴰ.not-nil m);
    closed = λ k layout there fresh found t m. absurd (clash k there fresh);
    sound = λ k h. inl h;
  }
    where
      clash : (k : String) → has_key k seen ≡ true → has_key k seen ≡ false → ⊥
      clash k a b = cc

pub unseen-le-length : (structs : Layouts) (seen : Names) → unseen structs seen ≤ length structs
unfolding unseen
unseen-le-length [] seen = omega arith
unseen-le-length ((name, l) ∷ rest) seen = ground (arith, unseen-le-length rest seen)
