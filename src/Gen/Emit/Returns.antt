-- ===== src/Gen/Emit/Returns.antt =====
-- cmd/gen/main.go: how main ends.
use rom_server_poc.Prelude.{ℕ, ◌<◌, ◌≡◌, refl, ◌⊎◌, inl, inr, String, List, []}
use rom_server_poc.Prelude.Result.{Result, ok, err}
use rom_server_poc.Protocol.Catalog.{Field, Catalog}
use rom_server_poc.Gen.Classes.{
  TypedMessage, DumpType, GenError, slice_out_of_range, out_of_fuel, Layouts, Bases, load_own,
  build_structs, message_fields,
}
use rom_server_poc.Gen.Classes.Inherit.{Descends, build_structs_ends, message_fields_ends}
use rom_server_poc.Gen.Reachable.{Names}
use rom_server_poc.Gen.Emit.{Resolved, emit, generate}
use rom_server_poc.Gen.Emit.Loop.{WalkPanics, LoopEnds}
use rom_server_poc.Gen.Emit.Found.{loop, loop_ends}

-- The generator panics, on a type that a message's fields lead to.
abbrev pub Panics : ℕ → List TypedMessage → List DumpType → Bases → Type 0
Panics fuel messages dump bases =
    (generate fuel messages dump bases ≡ err slice_out_of_range)
    × (structs : Layouts) × (build_structs fuel (load_own dump) bases ≡ ok structs)
    × WalkPanics structs (λ m. message_fields fuel m bases (load_own dump)) messages

module _ (rank : String → ℕ) (fuel : ℕ) (messages : List TypedMessage) (dump : List DumpType)
    (bases : Bases) (down : Descends rank bases) (low : (c : String) → rank c < fuel) where
  generate_after :
      (structs : Layouts)
      → build_structs fuel (load_own dump) bases ≡ ok structs
      → (r : Result GenError (List Resolved × Names)) → loop fuel messages dump bases structs ≡ r
      → LoopEnds structs (λ m. message_fields fuel m bases (load_own dump)) messages [] [] r
      → ((cat : Catalog) × (generate fuel messages dump bases ≡ ok cat))
        ⊎ Panics fuel messages dump bases
  unfolding generate loop
  generate_after structs built (ok (out, reached)) looped h =
      inl (emit out structs reached messages, rw built (rw looped refl))
  generate_after structs built (err slice_out_of_range) looped (inl (m, there, fails)) =
      let (fs, e) = message_fields_ends rank bases down fuel low (load_own dump) m in
      absurd (clash m fs e fails)
    where
      clash :
          (m : TypedMessage) (fs : List Field)
          → message_fields fuel m bases (load_own dump) ≡ ok fs
          → message_fields fuel m bases (load_own dump) ≡ err slice_out_of_range
          → ⊥
      clash m fs a b = cc
  generate_after structs built (err slice_out_of_range) looped (inr p) =
      inr (rw built (rw looped refl), structs, built, p)
  generate_after structs built (err out_of_fuel) looped (m, there, fails) =
      let (fs, e) = message_fields_ends rank bases down fuel low (load_own dump) m in
      absurd (clash m fs e fails)
    where
      clash :
          (m : TypedMessage) (fs : List Field)
          → message_fields fuel m bases (load_own dump) ≡ ok fs
          → message_fields fuel m bases (load_own dump) ≡ err out_of_fuel
          → ⊥
      clash m fs a b = cc

  -- If a number below the fuel falls from each class to its base (so that no class is above
  -- itself), the generator ends: it emits a catalog, or it panics because it cannot cut a type that
  -- the fields of some message lead to.
  pub generate_returns :
      ((cat : Catalog) × (generate fuel messages dump bases ≡ ok cat))
      ⊎ Panics fuel messages dump bases
  generate_returns =
      let (structs, built) = build_structs_ends rank bases down fuel low (load_own dump) in
      generate_after structs built (loop fuel messages dump bases structs) refl
        (loop_ends fuel messages dump bases structs)
