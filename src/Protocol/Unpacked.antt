-- ===== src/Protocol/Unpacked.antt =====
-- `unpack_iso_in` of src/protocol.rs: when it succeeds, and how long its result is.
use usbip_macos.Prelude.{
  ◌↔◌, ℕ, ◌+◌, ◌≤◌, ◌<◌, ◌≡◌, refl, sym, ap, ◌∙◌, subst, List, [], ◌∷◌, ◌++◌, length, length-append,
  length-take, length-drop, length-replicate, take, drop, replicate, none, some, le→leb, dec_lt,
  arith,
}
use usbip_macos.Protocol.Types.{IsoPacketDescriptor}
use usbip_macos.Protocol.Iso.{slice?, write_at?, unpack_packets, unpack_iso_in}

-- Each packet lies inside the packed bytes, one after the other, and goes inside the buffer.
unfoldable pub Fits : ℕ → List IsoPacketDescriptor → ℕ → ℕ → Type 0
Fits packed [] cursor size = Unit
Fits packed (p ∷ ps) cursor size =
    (cursor + p.actual_length ≤ packed)
    × (p.offset + p.actual_length ≤ size)
    × Fits packed ps (cursor + p.actual_length) size

length-slice :
    (bytes : List ℕ) (start len : ℕ)
    → start + len ≤ length bytes
    → length (take len (drop start bytes)) ≡ len
length-slice bytes start len h =
    omega (arith, h, length-take len (drop start bytes), length-drop start bytes)

write_at?-some :
    (out : List ℕ) (start : ℕ) (src : List ℕ)
    → start + length src ≤ length out
    → (out' : List ℕ) × (write_at? out start src ≡ some out') × (length out' ≡ length out)
unfolding write_at?
write_at?-some out start src h = (
  take start out ++ (src ++ drop (start + length src) out),
  rw (le→leb (start + length src) (length out) h),
  omega (
    arith,
    h,
    length-append (take start out) (src ++ drop (start + length src) out),
    length-append src (drop (start + length src) out),
    length-take start out,
    length-drop (start + length src) out,
  ),
)

slice?-some :
    (bytes : List ℕ) (start len : ℕ)
    → start + len ≤ length bytes
    → slice? bytes start len ≡ some (take len (drop start bytes))
unfolding slice?
slice?-some bytes start len h = rw (le→leb (start + len) (length bytes) h)

unpack_packets-step :
    (packed : List ℕ) (p : IsoPacketDescriptor) (ps : List IsoPacketDescriptor) (cursor : ℕ)
    → (out src out1 : List ℕ) → slice? packed cursor p.actual_length ≡ some src
    → write_at? out p.offset src ≡ some out1
    → unpack_packets packed (p ∷ ps) cursor out
      ≡ unpack_packets packed ps (cursor + p.actual_length) out1
unfolding unpack_packets
unpack_packets-step packed p ps cursor out src out1 es ew = rw (es, unpack_packets, ew)

unpack_packets-Fits :
    (packed : List ℕ) (ps : List IsoPacketDescriptor) (cursor : ℕ) (out : List ℕ)
    → Fits (length packed) ps cursor (length out)
    → (out' : List ℕ) × (unpack_packets packed ps cursor out ≡ some out')
      × (length out' ≡ length out)
unfolding unpack_packets Fits
unpack_packets-Fits packed [] cursor out v = (out, refl, refl)
unpack_packets-Fits packed (p ∷ ps) cursor out v =
    let src = take p.actual_length (drop cursor packed) in
    let size = length-slice packed cursor p.actual_length v.0 in
    let (out1, e1, l1) = write_at?-some out p.offset src (omega (arith, v.1, size)) in
    let (out2, e2, l2) =
      unpack_packets-Fits packed ps (cursor + p.actual_length) out1
        (subst (Fits (length packed) ps (cursor + p.actual_length)) (sym l1) v.2) in
    (
      out2,
      unpack_packets-step packed p ps cursor out src out1
            (slice?-some packed cursor p.actual_length v.0) e1
          ∙ e2,
      l2 ∙ l1,
    )

-- When every packet lies inside the packed bytes and goes inside the buffer, unpacking succeeds and
-- the result has the length of the buffer.
pub unpack_iso_in-Fits :
    (packed : List ℕ) (ps : List IsoPacketDescriptor) (size : ℕ)
    → Fits (length packed) ps 0 size
    → (out : List ℕ) × (unpack_iso_in packed ps size ≡ some out) × (length out ≡ size)
unfolding unpack_iso_in
unpack_iso_in-Fits packed ps size v =
    let (out, e, l) =
      unpack_packets-Fits packed ps 0 (replicate size 0)
        (subst (Fits (length packed) ps 0) (sym (length-replicate size 0)) v) in
    (out, e, l ∙ length-replicate size 0)

slice?-none :
    (bytes : List ℕ) (start len : ℕ) → length bytes < start + len → slice? bytes start len ≡ none
unfolding slice?
slice?-none bytes start len h = ground (arith, h)

write_at?-none :
    (out : List ℕ) (start : ℕ) (src : List ℕ)
    → length out < start + length src
    → write_at? out start src ≡ none
unfolding write_at?
write_at?-none out start src h = ground (arith, h)

unpack_packets-only :
    (packed : List ℕ) (ps : List IsoPacketDescriptor) (cursor : ℕ) (out out' : List ℕ)
    → unpack_packets packed ps cursor out ≡ some out'
    → Fits (length packed) ps cursor (length out)
unfolding unpack_packets Fits
unpack_packets-only packed [] cursor out out' e = _
unpack_packets-only packed (p ∷ ps) cursor out out' e =
    elim (dec_lt (length packed) (cursor + p.actual_length)) [
      | yes past ↦ absurd (
          let h = rw (slice?-none packed cursor p.actual_length past, unpack_packets) at e in
          ground (arith, h))
      | no inside ↦
          let fits : cursor + p.actual_length ≤ length packed = omega (arith, inside) in
          let src = take p.actual_length (drop cursor packed) in
          let size = length-slice packed cursor p.actual_length fits in
          let e1 = rw (slice?-some packed cursor p.actual_length fits, unpack_packets) at e in
          elim (dec_lt (length out) (p.offset + length src)) [
            | yes over ↦ absurd (
                let h = rw (write_at?-none out p.offset src over, unpack_packets) at e1 in
                ground (arith, h))
            | no room ↦
                let (out1, w, l1) = write_at?-some out p.offset src (omega (arith, room)) in
                (
                  fits,
                  omega (arith, room, size),
                  subst (Fits (length packed) ps (cursor + p.actual_length)) l1 (
                      unpack_packets-only packed ps (cursor + p.actual_length) out1 out'
                        (rw (w, unpack_packets) at e1)),
                )
          ]
    ]

-- Unpacking succeeds only when every packet lies inside the packed bytes and goes inside the
-- buffer.
pub unpack_iso_in-only :
    (packed : List ℕ) (ps : List IsoPacketDescriptor) (size : ℕ) (out : List ℕ)
    → unpack_iso_in packed ps size ≡ some out
    → Fits (length packed) ps 0 size
unfolding unpack_iso_in
unpack_iso_in-only packed ps size out e =
    subst (Fits (length packed) ps 0) (length-replicate size 0)
      (unpack_packets-only packed ps 0 (replicate size 0) out e)

some_same : (x y : List ℕ) → some x ≡ some y → x ≡ y
some_same x y e = cc

-- unpack_iso_in succeeds exactly when every packet lies inside the packed bytes and goes inside the
-- buffer; whenever it succeeds, its result has the length of the buffer.
pub unpack_iso_in_iff :
    (packed : List ℕ) (ps : List IsoPacketDescriptor) (size : ℕ)
    → (((out : List ℕ) × (unpack_iso_in packed ps size ≡ some out))
        ↔ Fits (length packed) ps 0 size)
      × ((out : List ℕ) → unpack_iso_in packed ps size ≡ some out → length out ≡ size)
unpack_iso_in_iff packed ps size = (
  (
    λ r. unpack_iso_in-only packed ps size r.0 r.1,
    λ v. let (out, e, l) = unpack_iso_in-Fits packed ps size v in (out, e),
  ),
  λ out e.
      let (out', e', l) =
        unpack_iso_in-Fits packed ps size (unpack_iso_in-only packed ps size out e) in
      ap length (some_same out out' (sym e ∙ e')) ∙ l,
)
