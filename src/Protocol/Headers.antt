-- ===== src/Protocol/Headers.antt =====
-- Reading a reply of the server: the 48-byte header of an URB reply, and its payload.
use usbip_macos.Prelude.{
  ℕ, ◌^◌, ◌<◌, ◌≡◌, ◌≢◌, ◌∙◌, List, ◌++◌, length, arith, Result, ok, err, ltb, ◌==◌, if◌then◌else◌,
  ne→==,
}
use usbip_macos.Prelude.Int.{IsI32, to_bits, to_bits-lt, of_bits-to_bits}
use usbip_macos.Wire.{Buf, Reader, be_u32, be_i32, of_be4-be_u32}
use usbip_macos.Wire.Streams.{read_exact_bytes}
use usbip_macos.Protocol.Types.{
  ProtocolError, unexpected_command, invalid, number_of_packets, SubmitHeader, RetUnlink, Reply,
  submit, unlink,
}
use usbip_macos.Protocol.Replies.{submit_reply, read_reply_header}

-- The header of a reply: command, seqnum, three words that the client ignores, and 28 bytes that
-- depend on the command.
unfoldable pub reply_bytes : ℕ → ℕ → ℕ → ℕ → ℕ → List ℕ → List ℕ
reply_bytes command seqnum x y z body =
    be_u32 command ++ (be_u32 seqnum ++ (be_u32 x ++ (be_u32 y ++ (be_u32 z ++ body))))

-- The 28 bytes of a RET_SUBMIT; `packets` is the word on the wire.
unfoldable pub ret_submit_body : SubmitHeader → ℕ → List ℕ → List ℕ
ret_submit_body h packets pad =
    be_i32 h.status
    ++ (be_u32 h.actual_length
        ++ (be_u32 h.start_frame ++ (be_u32 packets ++ (be_u32 h.error_count ++ pad))))

pub record IsHeader (h : SubmitHeader) : Type 0 where
  pub seqnum_fits : h.seqnum < 2 ^ 32
  pub status_fits : IsI32 h.status
  pub actual_fits : h.actual_length < 2 ^ 32
  pub frame_fits : h.start_frame < 2 ^ 32
  pub errors_fit : h.error_count < 2 ^ 32

module _ {R : Type 0} ⦃buf : Buf⦄ ⦃rd : Reader R⦄ where
  open buf use {get_u32, get_i32, advance, get_u32_lem, get_i32_lem, advance_lem}
  open rd use {pending, read_exact}

  -- What the header's 48 bytes lead to, with the two words that select the branch read.
  header_branch : ℕ → ℕ → List ℕ → R → Result ProtocolError (Reply × R)
  header_branch command seqnum body r =
      if command == 3
      then submit_reply seqnum body r
      else if command == 4
      then ok (unlink (record { seqnum = seqnum; status = (get_i32 body).0 }), r)
      else err (unexpected_command command)

  read_reply_header_branch :
      (r : R) (command seqnum x y z : ℕ) (body rest : List ℕ)
      → command < 2 ^ 32
      → seqnum < 2 ^ 32
      → length body ≡ 28
      → pending r ≡ reply_bytes command seqnum x y z body ++ rest
      → (r' : R) × (read_reply_header r ≡ header_branch command seqnum body r')
        × (pending r' ≡ rest)
  unfolding read_reply_header reply_bytes header_branch
  read_reply_header_branch r command seqnum x y z body rest hc hs hb e =
      let (r', e', p) =
        read_exact_bytes 48 r (reply_bytes command seqnum x y z body) rest (omega (arith, hb)) e in
      let skipped = be_u32 x ++ (be_u32 y ++ (be_u32 z ++ body)) in
      (
        r',
        simp (
          e',
          get_u32_lem,
          of_be4-be_u32 command hc,
          of_be4-be_u32 seqnum hs,
          advance_lem 12 skipped (omega (arith, hb)),
        ),
        p,
      )

  -- The number of packets that the word on the wire stands for.
  submit_reply_lem :
      (h : SubmitHeader) (packets : ℕ) (pad : List ℕ) (r : R)
      → IsHeader h
      → packets < 2 ^ 32
      → submit_reply h.seqnum (ret_submit_body h packets pad) r ≡ (
          let count : ℕ = if packets == 0xffff_ffff then 0 else packets in
          if ltb 1024 count
          then err (invalid (number_of_packets count))
          else ok (submit (record h { number_of_packets = count }), r))
  unfolding submit_reply ret_submit_body
  submit_reply_lem h packets pad r v hp = simp (
    get_i32_lem,
    get_u32_lem,
    of_be4-be_u32 (to_bits h.status) (to_bits-lt h.status v.status_fits),
    of_bits-to_bits h.status v.status_fits,
    of_be4-be_u32 h.actual_length v.actual_fits,
    of_be4-be_u32 h.start_frame v.frame_fits,
    of_be4-be_u32 packets hp,
    of_be4-be_u32 h.error_count v.errors_fit,
  )

  -- A RET_SUBMIT header is read back field by field, an all-ones packet count as 0; a packet count
  -- above 1024 is refused. Either way 48 bytes are taken.
  pub read_reply_header-submit :
      (r : R) (h : SubmitHeader) (packets x y z : ℕ) (pad rest : List ℕ)
      → IsHeader h
      → packets < 2 ^ 32
      → length pad ≡ 8
      → pending r ≡ reply_bytes 3 h.seqnum x y z (ret_submit_body h packets pad) ++ rest
      → (r' : R) × (read_reply_header r ≡ (
          let count : ℕ = if packets == 0xffff_ffff then 0 else packets in
          if ltb 1024 count
          then err (invalid (number_of_packets count))
          else ok (submit (record h { number_of_packets = count }), r')))
        × (pending r' ≡ rest)
  read_reply_header-submit r h packets x y z pad rest v hp hl e =
      let body = ret_submit_body h packets pad in
      let (r', e', p) =
        read_reply_header_branch r 3 h.seqnum x y z body rest (omega arith) v.seqnum_fits
          (unfold ret_submit_body in omega (arith, hl)) e in
      (r', e' ∙ (unfold header_branch in submit_reply_lem h packets pad r' v hp), p)

  -- A RET_UNLINK header is read back.
  pub read_reply_header-unlink :
      (r : R) (u : RetUnlink) (x y z : ℕ) (pad rest : List ℕ)
      → u.seqnum < 2 ^ 32
      → IsI32 u.status
      → length pad ≡ 24
      → pending r ≡ reply_bytes 4 u.seqnum x y z (be_i32 u.status ++ pad) ++ rest
      → (r' : R) × (read_reply_header r ≡ ok (unlink u, r')) × (pending r' ≡ rest)
  read_reply_header-unlink r u x y z pad rest hs hi hl e =
      let (r', e', p) =
        read_reply_header_branch r 4 u.seqnum x y z (be_i32 u.status ++ pad) rest (omega arith) hs
          (omega (arith, hl)) e in
      (
        r',
        e'
            ∙ (unfold header_branch in
                simp (
                  get_i32_lem,
                  of_be4-be_u32 (to_bits u.status) (to_bits-lt u.status hi),
                  of_bits-to_bits u.status hi,
                )),
        p,
      )

  -- Any other command ends the session with its number.
  pub read_reply_header_unexpected :
      (r : R) (command seqnum x y z : ℕ) (body rest : List ℕ)
      → command < 2 ^ 32
      → seqnum < 2 ^ 32
      → command ≢ 3
      → command ≢ 4
      → length body ≡ 28
      → pending r ≡ reply_bytes command seqnum x y z body ++ rest
      → read_reply_header r ≡ err (unexpected_command command)
  read_reply_header_unexpected r command seqnum x y z body rest hc hs h3 h4 hb e =
      let (r', e', p) = read_reply_header_branch r command seqnum x y z body rest hc hs hb e in
      e' ∙ (unfold header_branch in rw (ne→== command 3 h3, ne→== command 4 h4))
