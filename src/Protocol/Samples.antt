-- ===== src/Protocol/Samples.antt =====
-- Sample values: stand-ins for Go's float conversions, which keep what fits.
use rom_server_poc.Prelude.{◌%◌, ◌^◌, arith}
use rom_server_poc.Protocol.Primitives.{Floats}

abbrev pub sample_floats : Floats
sample_floats = record {
  widen = λ f. f % 2 ^ 64;
  narrow = λ f. f % 2 ^ 32;
  to_signed = λ f. f % 2 ^ 64;
  to_unsigned = λ f. f % 2 ^ 64;
  of_signed = λ n. n % 2 ^ 64;
  of_unsigned = λ n. n % 2 ^ 64;
  narrow_fits = λ f. omega arith;
  widen_fits = λ f. omega arith;
  to_signed_fits = λ f. omega arith;
  to_unsigned_fits = λ f. omega arith;
  of_signed_fits = λ n. omega arith;
  of_unsigned_fits = λ n. omega arith;
}
