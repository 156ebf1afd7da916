-- ===== src/Wire/Program/Trailer.antt =====
-- Every trailer is read back by the branch of its probe type.
use project_bifrost.Base.{ℕ, ◌≤◌, ◌<◌, ◌^◌, ◌≡◌, refl, arith, ◌⊎◌, Bytes, length, sizes}
use project_bifrost.Wire.Decoder.{pure}
use project_bifrost.Wire.Decoder.Reads.{
  Reads, Reads-pure, Reads-need, Reads-bind, Reads-last, Reads-uint, Reads-take, Reads-cast,
  Reads-fail_if,
}
use project_bifrost.Wire.Program.{TrailerSpec, TrailerView}
use project_bifrost.Wire.Program.Decode.{
  decode_path, decode_symbol, decode_usdt, decode_profile_timer, decode_trailer,
}
use project_bifrost.Wire.Program.Emit.{trailer_bytes, TrailerFits, IsName}

abbrev pub trailer_view : TrailerSpec → TrailerView
trailer_view TrailerSpec.no_trailer = TrailerView.no_trailer
trailer_view (TrailerSpec.path file offset) = TrailerView.path file offset
trailer_view (TrailerSpec.symbol bn sym) = TrailerView.symbol bn sym
trailer_view (TrailerSpec.usdt bn prov pr) = TrailerView.usdt bn prov pr
trailer_view (TrailerSpec.profile_timer period_ns) = TrailerView.profile_timer period_ns

Reads-path :
    (file : Bytes) (offset : ℕ)
    → length file ≤ 256
    → offset < 2 ^ 64
    → Reads decode_path
        (trailer_bytes (TrailerSpec.path file offset))
        (TrailerView.path file offset)
unfolding decode_path trailer_bytes
Reads-path file offset h h' = Reads-need 4 _ (omega sizes) (
    Reads-bind _ (length file) (Reads-cast 4 _ _ (omega arith) (omega arith)) (
      Reads-fail_if _ _ (ground arith) (
        Reads-need _ _ (omega sizes)
          (Reads-bind _ file (Reads-take file _ refl) (Reads-last _ (Reads-uint 8 _ h'))))))

Reads-symbol :
    (bn sym : Bytes)
    → IsName 64 bn
    → IsName 256 sym
    → Reads decode_symbol (trailer_bytes (TrailerSpec.symbol bn sym)) (TrailerView.symbol bn sym)
unfolding decode_symbol trailer_bytes
Reads-symbol bn sym h h' = Reads-need 4 _ (omega sizes) (
    Reads-bind _ (length bn) (Reads-cast 4 _ _ (omega arith) (omega arith)) (
      Reads-fail_if _ _ (ground arith) (
        Reads-need _ _ (omega sizes) (
          Reads-bind _ bn (Reads-take bn _ refl) (
            Reads-bind _ (length sym) (Reads-cast 4 _ _ (omega arith) (omega arith)) (
              Reads-fail_if _ _ (ground arith)
                (Reads-need _ _ (omega sizes) (Reads-last _ (Reads-take sym _ refl)))))))))

Reads-usdt :
    (bn prov pr : Bytes)
    → IsName 64 bn
    → IsName 64 prov
    → IsName 256 pr
    → Reads decode_usdt (trailer_bytes (TrailerSpec.usdt bn prov pr)) (TrailerView.usdt bn prov pr)
unfolding decode_usdt trailer_bytes
Reads-usdt bn prov pr h h' h'' = Reads-need 4 _ (omega sizes) (
    Reads-bind _ (length bn) (Reads-cast 4 _ _ (omega arith) (omega arith)) (
      Reads-fail_if _ _ (ground arith) (
        Reads-need _ _ (omega sizes) (
          Reads-bind _ bn (Reads-take bn _ refl) (
            Reads-bind _ (length prov) (Reads-cast 4 _ _ (omega arith) (omega arith)) (
              Reads-fail_if _ _ (ground arith) (
                Reads-need _ _ (omega sizes) (
                  Reads-bind _ prov (Reads-take prov _ refl) (
                    Reads-bind _ (length pr) (Reads-cast 4 _ _ (omega arith) (omega arith)) (
                      Reads-fail_if _ _ (ground arith) (
                        Reads-need _ _ (omega sizes)
                          (Reads-last _ (Reads-take pr _ refl)))))))))))))

Reads-timer :
    (period_ns : ℕ)
    → period_ns < 2 ^ 64
    → Reads decode_profile_timer
        (trailer_bytes (TrailerSpec.profile_timer period_ns))
        (TrailerView.profile_timer period_ns)
unfolding decode_profile_timer trailer_bytes
Reads-timer period_ns h = Reads-need 8 _ (omega sizes) (Reads-last _ (Reads-uint 8 _ h))

trailer_none :
    (ty : ℕ) → (ty ≤ 1) ⊎ ((6 ≤ ty) × (ty ≤ 8)) → decode_trailer ty ≡ pure TrailerView.no_trailer
unfolding decode_trailer
trailer_none ty h = ground arith

trailer_path : (ty : ℕ) → (ty ≡ 2) ⊎ (ty ≡ 3) → decode_trailer ty ≡ decode_path
unfolding decode_trailer
trailer_path ty h = ground arith

trailer_symbol : (ty : ℕ) → (ty ≡ 4) ⊎ (ty ≡ 5) → decode_trailer ty ≡ decode_symbol
unfolding decode_trailer
trailer_symbol ty h = ground arith

trailer_usdt : (ty : ℕ) → ty ≡ 9 → decode_trailer ty ≡ decode_usdt
unfolding decode_trailer
trailer_usdt ty h = ground arith

trailer_timer : (ty : ℕ) → ty ≡ 10 → decode_trailer ty ≡ decode_profile_timer
unfolding decode_trailer
trailer_timer ty h = ground arith

pub Reads-trailer :
    (ty : ℕ) (t : TrailerSpec)
    → TrailerFits ty t
    → Reads (decode_trailer ty) (trailer_bytes t) (trailer_view t)
Reads-trailer ty TrailerSpec.no_trailer h =
    rw (trailer_none ty h) (unfold trailer_bytes in Reads-pure TrailerView.no_trailer)
Reads-trailer ty (TrailerSpec.path file offset) (h, fits, wide) =
    rw (trailer_path ty h) (Reads-path file offset fits wide)
Reads-trailer ty (TrailerSpec.symbol bn sym) (h, hb, hs) =
    rw (trailer_symbol ty h) (Reads-symbol bn sym hb hs)
Reads-trailer ty (TrailerSpec.usdt bn prov pr) (h, hb, hp, hq) =
    rw (trailer_usdt ty h) (Reads-usdt bn prov pr hb hp hq)
Reads-trailer ty (TrailerSpec.profile_timer period_ns) (h, wide) =
    rw (trailer_timer ty h) (Reads-timer period_ns wide)
