-- ===== src/Gen/Emit/Loop.antt =====
-- cmd/gen/main.go: the loop of main over the messages, by what its walks have set.
use mathlib.Core.List.{Memᴰ}
use rom_server_poc.Prelude.{
  suc, ◌≡◌, refl, sym, ◌∙◌, ◌⊎◌, inl, inr, ap, String, List, [], ◌∷◌, ◌++◌, map, arith, append-nil,
  append_assoc, length,
}
use rom_server_poc.Prelude.Result.{Result, ok, err, ◌>>=◌}
use rom_server_poc.Protocol.Catalog.{Field}
use rom_server_poc.Gen.Classes.{TypedMessage, GenError, slice_out_of_range, out_of_fuel, Layouts}
use rom_server_poc.Gen.Reachable.{element_type, Names, collect_fields}
use rom_server_poc.Gen.Reachable.Walk.{
  types_of, unseen-le-length, Met, Walked, Ends, Walked-append, Walked-nil,
}
use rom_server_poc.Gen.Reachable.Ends.{collect_reachable-Ends, collect_fields-Ends}
use rom_server_poc.Gen.Emit.{Resolved, resolve_messages, visit_structs}

-- All field types of the resolved messages.
abbrev pub roots_of : List Resolved → List String
roots_of [] = []
roots_of (r ∷ rs) = types_of r.fields ++ roots_of rs

unfoldable pub msgs_of : List Resolved → List TypedMessage
msgs_of rs = map (λ (r : Resolved). r.msg) rs

pub visits_end :
    (structs : Layouts) (fields : List Field) (seen : Names)
    → Ends structs (types_of fields) seen (collect_fields (visit_structs structs) fields seen)
visits_end structs fields seen =
    collect_fields-Ends structs (visit_structs structs) seen
      (λ t s g.
        let few = unseen-le-length structs s in
        collect_reachable-Ends structs (suc (length structs)) t s (omega arith))
      fields seen (λ k h. h)

module _ (structs : Layouts) (layout : TypedMessage → Result GenError (List Field)) where
  -- A message whose fields cannot be laid out.
  abbrev pub LayoutFails : List TypedMessage → GenError → Type 0
  LayoutFails ms e = (m : TypedMessage) × Memᴰ m ms × (layout m ≡ err e)

  -- A message from whose fields a type is met that makes the walk panic.
  abbrev pub WalkPanics : List TypedMessage → Type 0
  WalkPanics ms =
      (m : TypedMessage) × (fs : List Field) × (u : String) × Memᴰ m ms
      × (layout m ≡ ok fs)
      × Met structs (types_of fs) u
      × (element_type u ≡ err slice_out_of_range)

  abbrev pub LoopEnds :
      List TypedMessage → List Resolved → Names → Result GenError (List Resolved × Names) → Type 0
  LoopEnds ms out seen (ok (out', reached)) =
      (rs : List Resolved) × (out' ≡ out ++ rs)
      × (msgs_of rs ≡ ms)
      × Walked structs (roots_of rs) seen reached
  LoopEnds ms out seen (err slice_out_of_range) = LayoutFails ms slice_out_of_range ⊎ WalkPanics ms
  LoopEnds ms out seen (err out_of_fuel) = LayoutFails ms out_of_fuel

  LayoutFails-tail :
      (m : TypedMessage) (ms : List TypedMessage) (e : GenError)
      → LayoutFails ms e
      → LayoutFails (m ∷ ms) e
  LayoutFails-tail m ms e (m', there, fails) = (m', Memᴰ.tail there, fails)

  WalkPanics-tail :
      (m : TypedMessage) (ms : List TypedMessage) → WalkPanics ms → WalkPanics (m ∷ ms)
  WalkPanics-tail m ms (m', fs, u, there, laid, met, e) = (m', fs, u, Memᴰ.tail there, laid, met, e)

  LoopEnds-cons :
      (m : TypedMessage) (ms : List TypedMessage) (fs : List Field) (out : List Resolved)
      (seen mid : Names) (r : Result GenError (List Resolved × Names))
      → Walked structs (types_of fs) seen mid
      → LoopEnds ms (out ++ record { msg = m; fields = fs } ∷ []) mid r
      → LoopEnds (m ∷ ms) out seen r
  unfolding msgs_of
  LoopEnds-cons m ms fs out seen mid (ok (out', reached)) first (rs, whole, msgs, others) = (
    record { msg = m; fields = fs } ∷ rs,
    whole ∙ append_assoc out (record { msg = m; fields = fs } ∷ []) rs,
    ap (λ t. m ∷ t) msgs,
    Walked-append structs (types_of fs) (roots_of rs) seen mid reached first others,
  )
  LoopEnds-cons m ms fs out seen mid (err slice_out_of_range) first (inl f) =
      inl (LayoutFails-tail m ms slice_out_of_range f)
  LoopEnds-cons m ms fs out seen mid (err slice_out_of_range) first (inr p) =
      inr (WalkPanics-tail m ms p)
  LoopEnds-cons m ms fs out seen mid (err out_of_fuel) first f = LayoutFails-tail m ms out_of_fuel f

  -- A round, with the rest of the loop as `next`.
  walk_then :
      (m : TypedMessage) (ms : List TypedMessage) (fs : List Field) (out : List Resolved)
      (seen : Names) (r : Result GenError Names)
      (next : Names → Result GenError (List Resolved × Names))
      → layout m ≡ ok fs
      → Ends structs (types_of fs) seen r
      → ((mid : Names) → LoopEnds ms (out ++ record { msg = m; fields = fs } ∷ []) mid (next mid))
      → LoopEnds (m ∷ ms) out seen (r >>= next)
  walk_then m ms fs out seen (ok mid) next laid w h =
      LoopEnds-cons m ms fs out seen mid (next mid) w (h mid)
  walk_then m ms fs out seen (err slice_out_of_range) next laid (u, met, e) h =
      inr (m, fs, u, Memᴰ.head refl, laid, met, e)
  walk_then m ms fs out seen (err out_of_fuel) next laid w h = absurd w

  layout_then :
      (m : TypedMessage) (ms : List TypedMessage) (out : List Resolved) (seen : Names)
      (r : Result GenError (List Field))
      (next : List Field → Result GenError (List Resolved × Names))
      → layout m ≡ r
      → ((fs : List Field) → layout m ≡ ok fs → LoopEnds (m ∷ ms) out seen (next fs))
      → LoopEnds (m ∷ ms) out seen (r >>= next)
  layout_then m ms out seen (ok fs) next laid h = h fs laid
  layout_then m ms out seen (err slice_out_of_range) next laid h = inl (m, Memᴰ.head refl, laid)
  layout_then m ms out seen (err out_of_fuel) next laid h = (m, Memᴰ.head refl, laid)

  pub resolve_messages-LoopEnds :
      (ms : List TypedMessage) (out : List Resolved) (seen : Names)
      → LoopEnds ms out seen (resolve_messages layout (visit_structs structs) ms out seen)
  unfolding resolve_messages
  resolve_messages-LoopEnds [] out seen =
      ([], sym (append-nil out), unfold msgs_of in refl, Walked-nil structs seen)
  resolve_messages-LoopEnds (m ∷ ms) out seen =
      layout_then m ms out seen (layout m) _ refl (λ fs laid.
        walk_then m ms fs out seen (collect_fields (visit_structs structs) fs seen) _ laid
          (visits_end structs fs seen)
          (λ mid. resolve_messages-LoopEnds ms (out ++ record { msg = m; fields = fs } ∷ []) mid))
