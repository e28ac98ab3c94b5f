-- ===== src/Gen/Emit/Whole.antt =====
-- cmd/gen/main.go: main, from its inputs to the catalog.
use mathlib.Core.List.{Memᴰ}
use mathlib.Core.List.Memᴰ
use text.Mathlib.TextPositions.{slice-append_right, len-append, eq_refl}
use rom_server_poc.Prelude.{
  ℕ, ◌≡◌, refl, sym, subst, ◌∙◌, inl, inr, ap, String, true, false, Bool-cases, some, List, [], ◌∷◌,
  map, arith, eq_iff, str_eq,
}
use rom_server_poc.Prelude.Result.{ok}
use rom_server_poc.Protocol.Catalog.{Message, Catalog, find_name, is_message, has_key, opcode_of}
use rom_server_poc.Protocol.Codec.{message_name}
use rom_server_poc.Protocol.Codec.Layers.{PrefixesKnown}
use rom_server_poc.Gen.Classes.{
  TypedMessage, DumpType, Layouts, Bases, load_own, build_structs, full_name,
}
use rom_server_poc.Gen.Reachable.{Names}
use rom_server_poc.Gen.Emit.{Resolved, emit, emit_message, keep_names, generate}
use rom_server_poc.Gen.Emit.Sorted.{has_key-sort_names, has_key-keep_names}
use rom_server_poc.Gen.Emit.Loop.{msgs_of}
use rom_server_poc.Gen.Emit.Found.{generate-Found, IsClosed, IsNeeded}
use rom_server_poc.Gen.Emit.Sound.{Found-IsClosed, Found-IsNeeded}

module _ (fuel : ℕ) (messages : List TypedMessage) (dump : List DumpType) (bases : Bases)
    (cat : Catalog) (done : generate fuel messages dump bases ≡ ok cat) where
  -- If the generator emits a catalog, every struct of the inputs that a message's field or an
  -- emitted layout names has its layout in the catalog, and every layout in the catalog is that of
  -- a struct which the fields of some message of the catalog lead to.
  pub generate_exact :
      (structs : Layouts) × (build_structs fuel (load_own dump) bases ≡ ok structs)
      × IsClosed structs cat
      × IsNeeded structs cat
  generate_exact =
      let f = generate-Found fuel messages dump bases cat done in
      (
        f.structs,
        f.built,
        Found-IsClosed fuel messages dump bases cat f,
        Found-IsNeeded fuel messages dump bases cat f,
      )

has_key-full_name :
    (t : String) (rs : List Resolved)
    → has_key t (map full_name (msgs_of rs)) ≡ true
    → (r : Resolved) × Memᴰ r rs × (full_name r.msg ≡ t)
unfolding has_key msgs_of
has_key-full_name t [] h = cc
has_key-full_name t (r ∷ rs) h = elim (Bool-cases (str_eq (full_name r.msg) t)) [
  | inl same ↦ (r, Memᴰ.head refl, (eq_iff (full_name r.msg) t).0 same)
  | inr different ↦
      let (s, there, e) = has_key-full_name t rs (rw different at h) in (s, Memᴰ.tail there, e)
]

find_name-resolved :
    (r : Resolved) (rs : List Resolved)
    → Memᴰ r rs
    → (m : Message) × (find_name r.msg.name (map emit_message rs) ≡ some m)
unfolding find_name
find_name-resolved r [] there = absurd (Memᴰ.not-nil there)
find_name-resolved r (x ∷ xs) there = elim (Bool-cases (str_eq x.msg.name r.msg.name)) [
  | inl same ↦ (emit_message x, rw same refl)
  | inr different ↦ elim (Memᴰ.cases_cons there) [
    | inl e ↦ absurd (clash x e different)
    | inr later ↦ let (m, e) = find_name-resolved r xs later in (m, rw different e)
  ]
]
  where
    clash : (x : Resolved) → r ≡ x → str_eq x.msg.name r.msg.name ≡ false → ⊥
    clash x e d = ground (arith, eq_refl r.msg.name)

message_name-full_name : (m : TypedMessage) → message_name (full_name m) ≡ m.name
message_name-full_name m =
    rw (len-append "Protocol." m.name) (slice-append_right "Protocol." m.name)

emitted_opcode :
    (structs : Layouts) (rs : List Resolved) (reached : Names) (messages : List TypedMessage)
    (r : Resolved)
    → Memᴰ r rs
    → (op : ℕ) × (opcode_of (emit rs structs reached messages) r.msg.name ≡ some op)
unfolding emit opcode_of
emitted_opcode structs rs reached messages r there =
    let (m, e) = find_name-resolved r rs there in (m.id, rw e refl)

emitted_message :
    (structs : Layouts) (rs : List Resolved) (reached : Names) (t : String)
    → is_message (emit rs structs reached (msgs_of rs)) t ≡ true
    → (r : Resolved) × Memᴰ r rs × (full_name r.msg ≡ t)
unfolding emit is_message
emitted_message structs rs reached t h =
    let kept = sym (has_key-sort_names t (keep_names (map full_name (msgs_of rs)) reached)) ∙ h in
    has_key-full_name t rs (has_key-keep_names t (map full_name (msgs_of rs)) reached kept).0

emitted-PrefixesKnown :
    (structs : Layouts) (rs : List Resolved) (reached : Names)
    → PrefixesKnown (emit rs structs reached (msgs_of rs))
emitted-PrefixesKnown structs rs reached t h =
    let (r, there, e) = emitted_message structs rs reached t h in
    let (op, found) = emitted_opcode structs rs reached (msgs_of rs) r there in
    let name : r.msg.name ≡ message_name t =
      sym (message_name-full_name r.msg) ∙ ap (λ k. message_name k) e in
    (op, subst (λ k. opcode_of (emit rs structs reached (msgs_of rs)) k ≡ some op) name found)

-- The generated catalog meets what the codec's round trip asks of a catalog: each type that it
-- lists as a message element has an opcode.
pub generate-PrefixesKnown :
    (fuel : ℕ) (messages : List TypedMessage) (dump : List DumpType) (bases : Bases) (cat : Catalog)
    → generate fuel messages dump bases ≡ ok cat
    → PrefixesKnown cat
generate-PrefixesKnown fuel messages dump bases cat done t element =
    let f = generate-Found fuel messages dump bases cat done in
    let whole : cat ≡ emit f.resolved f.structs f.reached (msgs_of f.resolved) =
      f.emitted ∙ ap (λ ms. emit f.resolved f.structs f.reached ms) (sym f.msgs) in
    subst PrefixesKnown (sym whole) (emitted-PrefixesKnown f.structs f.resolved f.reached) t element
