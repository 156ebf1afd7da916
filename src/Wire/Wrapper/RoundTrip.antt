-- ===== src/Wire/Wrapper/RoundTrip.antt =====
-- A wrapper is read back program by program.
use project_bifrost.Base.{
  ℕ, ◌<◌, ◌≡◌, refl, ap, ◌∙◌, arith, not, false, List, [], ◌∷◌, ◌++◌, map, append-nil, Bytes, ok,
  length, le_bytes, as_u32, bytes_eq, chunks, All, IsU32, sizes, ◌+◌, sym,
}
use project_bifrost.Wire.Decoder.Reads.{
  Reads, Reads-need, Reads-bind, Reads-take, Reads-cast, Reads-fail_if,
}
use project_bifrost.Wire.Sink.{WireSink}
use project_bifrost.Wire.Sink.Emits.{SinkLaws, Emits, Emits-write, Emits-seq, Emits-done}
use project_bifrost.Wire.Sink.Vec.{vec_sink, vec_laws}
use project_bifrost.Wire.Iter.{drain}
use project_bifrost.Wire.Iter.Laws.{fresh, drain-written}
use project_bifrost.Wire.Program.{ProgramSpec}
use project_bifrost.Wire.Program.Decode.{decode_one_program}
use project_bifrost.Wire.Program.Emit.{program_bytes, IsEncodable, Emits-push_program}
use project_bifrost.Wire.Program.RoundTrip.{program_view, Reads-program}
use project_bifrost.Wire.Wrapper.{
  bfr7_magic, decode_wrapper_header, decode_bfr7, new_wrapper, push_programs, build_wrapper,
  program_iter,
}

unfoldable pub wrapper_bytes : List ProgramSpec → Bytes
wrapper_bytes ps = (bfr7_magic ++ le_bytes 4 (as_u32 (length ps))) ++ chunks program_bytes ps

module _ {S : Type 0} {sink : WireSink S} (laws : SinkLaws sink) where
  Emits-programs :
      (ps : List ProgramSpec)
      → All IsEncodable ps
      → Emits laws (push_programs sink ps) (chunks program_bytes ps)
  unfolding push_programs
  Emits-programs [] h = Emits-done laws
  Emits-programs (p ∷ ps) (h, hs) =
      Emits-seq laws (Emits-push_program laws p h) (Emits-programs ps hs)

  pub Emits-wrapper :
      (ps : List ProgramSpec)
      → All IsEncodable ps
      → Emits laws (build_wrapper sink ps) (wrapper_bytes ps)
  unfolding build_wrapper new_wrapper wrapper_bytes
  Emits-wrapper ps h = Emits-seq laws (Emits-write laws _) (Emits-programs ps h)

magic_good : not (bytes_eq bfr7_magic bfr7_magic) ≡ false
unfolding bytes_eq
magic_good = refl

length-header : (n : ℕ) → length (bfr7_magic ++ le_bytes 4 n) ≡ 8
length-header n = omega sizes

Reads-header :
    (n : ℕ) → IsU32 n → Reads decode_wrapper_header (bfr7_magic ++ le_bytes 4 (as_u32 n)) n
unfolding decode_wrapper_header
Reads-header n h = Reads-need 8 _ (omega sizes) (
    Reads-bind _ {c = bfr7_magic} bfr7_magic (Reads-take bfr7_magic 4 refl)
      (Reads-fail_if _ _ magic_good (Reads-cast 4 _ _ (omega arith) (omega arith))))

pub decode_bfr7-wrapper :
    (ps : List ProgramSpec)
    → IsU32 (length ps)
    → decode_bfr7 (wrapper_bytes ps) ≡ ok (fresh (wrapper_bytes ps) 8 (length ps))
unfolding decode_bfr7 wrapper_bytes le_bytes
decode_bfr7-wrapper ps h =
    ap (program_iter (wrapper_bytes ps))
      (Reads.at (Reads-header (length ps) h) [] (chunks program_bytes ps))

-- A wrapper of encodable programs, built into a `Vec`, decodes: the header gives an iterator with
-- as many programs as were pushed, and a loop over it yields the view of each program in order,
-- no error, and stops at the end of the input.
pub decode-build_wrapper :
    (ps : List ProgramSpec) (fuel : ℕ)
    → IsU32 (length ps)
    → All IsEncodable ps
    → length ps < fuel
    → (bytes : Bytes) × (build_wrapper vec_sink ps [] ≡ (ok tt, bytes))
      × (decode_bfr7 bytes ≡ ok (fresh bytes 8 (length ps)))
      × (drain fuel decode_one_program (fresh bytes 8 (length ps))
          ≡ (map (λ p. ok (program_view p)) ps, fresh bytes (length bytes) 0))
unfolding le_bytes
decode-build_wrapper ps fuel h hs hf =
    (wrapper_bytes ps, (Emits-wrapper vec_laws ps hs).at [] tt, decode_bfr7-wrapper ps h, loop)
  where
    header : Bytes
    header = bfr7_magic ++ le_bytes 4 (as_u32 (length ps))

    regroup : wrapper_bytes ps ≡ header ++ (chunks program_bytes ps ++ [])
    regroup = unfold wrapper_bytes in rw append-nil

    end : 8 + length (chunks program_bytes ps) ≡ length (wrapper_bytes ps)
    end = unfold wrapper_bytes in omega (sizes, length-header (as_u32 (length ps)))

    loop : drain fuel decode_one_program (fresh (wrapper_bytes ps) 8 (length ps)) ≡ (
      map (λ p. ok (program_view p)) ps,
      fresh (wrapper_bytes ps) (length (wrapper_bytes ps)) 0,
    )
    loop =
        drain-written decode_one_program program_bytes program_view Reads-program ps fuel
          (wrapper_bytes ps) header [] 8 hs hf regroup (sym (length-header (as_u32 (length ps))))
        ∙ ap (λ (c : ℕ). (map (λ p. ok (program_view p)) ps, fresh (wrapper_bytes ps) c 0)) end
