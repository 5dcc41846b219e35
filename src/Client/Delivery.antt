-- ===== src/Client/Delivery.antt =====
-- From the bytes on the stream to the answer: one round of the reader of src/client.rs.
use usbip_macos.Prelude.{
  ℕ, ◌≤◌, ◌≡◌, ap, ◌∙◌, List, ◌∷◌, ◌++◌, length, arith, ◌==◌, if◌then◌else◌, false, none, some,
  append_assoc, ok, err, All, le→ltb,
}
use usbip_macos.Prelude.Maps.{lookup, lookup-remove}
use usbip_macos.Wire.{Buf, Reader}
use usbip_macos.Protocol.Types.{
  Direction, is_in, SubmitHeader, IsoPacketDescriptor, invalid, unknown_seqnum,
}
use usbip_macos.Protocol.Layout.{isos_bytes}
use usbip_macos.Protocol.Headers.{reply_bytes, ret_submit_body, IsHeader, read_reply_header-submit}
use usbip_macos.Protocol.Payload.{IsIsoPacket, ret_of, data_length, read_submit_payload_lem}
use usbip_macos.Client.State.{PendingSubmit, Shared, Unlinked, completed, unlinked}
use usbip_macos.Client.Receive.{find_unlinked, find_request, finish_submit, read_reply, read_one}

-- The bytes of a RET_SUBMIT that fits the request: header, data and packets.
unfoldable pub ret_submit_bytes : SubmitHeader → List ℕ → List IsoPacketDescriptor → List ℕ → List ℕ
ret_submit_bytes h bytes packets pad =
    reply_bytes 3 h.seqnum 0 0 0 (ret_submit_body h h.number_of_packets pad)
    ++ (bytes ++ isos_bytes packets)

-- What a server may answer to a request of a direction and a length.
pub record IsAnswer (h : SubmitHeader) (bytes : List ℕ) (packets : List IsoPacketDescriptor)
    (pad : List ℕ) (direction : Direction) (length' : ℕ) : Type 0 where
  pub header : IsHeader h
  pub pad_length : length pad ≡ 8
  pub packets_few : h.number_of_packets ≤ 1024
  pub within : h.actual_length ≤ length'
  pub data_size : length bytes ≡ data_length (is_in direction) h.actual_length
  pub packets_counted : length packets ≡ h.number_of_packets
  pub packets_fit : All IsIsoPacket packets

module _ {R : Type 0} ⦃buf : Buf⦄ ⦃rd : Reader R⦄ where
  open rd use {pending}

  -- A RET_SUBMIT for a seqnum whose request is found is taken off the stream whole, and finished.
  read_one_submit :
      (meanwhile : Shared → Shared) (s : Shared) (r : R) (h : SubmitHeader)
      (bytes pad rest : List ℕ) (packets : List IsoPacketDescriptor) (direction : Direction)
      (max_length : ℕ)
      → find_request h.seqnum s.state ≡ ok (direction, max_length)
      → IsAnswer h bytes packets pad direction max_length
      → pending r ≡ ret_submit_bytes h bytes packets pad ++ rest
      → (r' : R) × (read_one meanwhile s r
          ≡ ok (finish_submit h.seqnum (ret_of h bytes packets) (meanwhile s), r'))
        × (pending r' ≡ rest)
  unfolding read_one read_reply ret_submit_bytes
  read_one_submit meanwhile s r h bytes pad rest packets direction max_length f v e =
      let (r1, e1, p1) =
        read_reply_header-submit r h h.number_of_packets 0 0 0 pad
          (bytes ++ (isos_bytes packets ++ rest)) v.header (omega (arith, v.packets_few))
          v.pad_length
          (e
            ∙ (append_assoc _ (bytes ++ isos_bytes packets) rest
                ∙ ap
                    (λ (t : List ℕ).
                      reply_bytes 3 h.seqnum 0 0 0 (ret_submit_body h h.number_of_packets pad) ++ t)
                    (append_assoc bytes (isos_bytes packets) rest))) in
      let (r2, e2, p2) =
        read_submit_payload_lem r1 h (is_in direction) max_length bytes rest packets v.within
          v.data_size v.packets_counted v.packets_fit p1 in
      let count : h.number_of_packets == 0xffff_ffff ≡ false = ground (arith, v.packets_few) in
      (r2, rw (e1, count, le→ltb 1024 h.number_of_packets v.packets_few, f, e2), p2)

  -- The reply to a pending transfer answers the channel of that transfer with the fields, the data
  -- and the packets that were on the wire; the transfer leaves the table, all others stay, and the
  -- stream is left at the next reply. Other threads may have changed the session in between, but
  -- for this transfer.
  pub read_one-delivers :
      (meanwhile : Shared → Shared) (s : Shared) (r : R) (h : SubmitHeader)
      (bytes pad rest : List ℕ) (packets : List IsoPacketDescriptor) (p : PendingSubmit)
      → lookup h.seqnum s.state.submits ≡ some p
      → lookup h.seqnum (meanwhile s).state.submits ≡ some p
      → IsAnswer h bytes packets pad p.direction p.length
      → pending r ≡ ret_submit_bytes h bytes packets pad ++ rest
      → (s' : Shared) × (r' : R) × (read_one meanwhile s r ≡ ok (s', r'))
        × (s'.answers ≡ (p.reply, completed (ret_of h bytes packets)) ∷ (meanwhile s).answers)
        × ((k : ℕ)
            → lookup k s'.state.submits
              ≡ (if h.seqnum == k then none else lookup k (meanwhile s).state.submits))
        × (pending r' ≡ rest)
  read_one-delivers meanwhile s r h bytes pad rest packets p before after v e =
      let found : find_request h.seqnum s.state ≡ ok (p.direction, p.length) =
        unfold find_request in ground arith in
      let (r', e', q) =
        read_one_submit meanwhile s r h bytes pad rest packets p.direction p.length found v e in
      (
        finish_submit h.seqnum (ret_of h bytes packets) (meanwhile s),
        r',
        e',
        unfold finish_submit in rw after,
        λ k.
            unfold finish_submit in rw after (lookup-remove k h.seqnum (meanwhile s).state.submits),
        q,
      )

  -- A reply that comes after its transfer was reported as unlinked is taken off the stream, data
  -- included, and dropped: nobody is answered.
  pub read_one-late :
      (meanwhile : Shared → Shared) (s : Shared) (r : R) (h : SubmitHeader)
      (bytes pad rest : List ℕ) (packets : List IsoPacketDescriptor) (u : Unlinked)
      → lookup h.seqnum s.state.submits ≡ none
      → find_unlinked h.seqnum s.state.unlinked ≡ some u
      → lookup h.seqnum (meanwhile s).state.submits ≡ none
      → IsAnswer h bytes packets pad u.direction u.length
      → pending r ≡ ret_submit_bytes h bytes packets pad ++ rest
      → (s' : Shared) × (r' : R) × (read_one meanwhile s r ≡ ok (s', r'))
        × (s'.answers ≡ (meanwhile s).answers)
        × (pending r' ≡ rest)
  read_one-late meanwhile s r h bytes pad rest packets u before known after v e =
      let found : find_request h.seqnum s.state ≡ ok (u.direction, u.length) =
        unfold find_request in ground arith in
      let (r', e', q) =
        read_one_submit meanwhile s r h bytes pad rest packets u.direction u.length found v e in
      (
        finish_submit h.seqnum (ret_of h bytes packets) (meanwhile s),
        r',
        e',
        unfold finish_submit in rw after,
        q,
      )

  -- A reply to a transfer that is neither pending nor remembered is an error of `read_one`.
  pub read_one_unknown :
      (meanwhile : Shared → Shared) (s : Shared) (r : R) (h : SubmitHeader) (pad rest : List ℕ)
      → IsHeader h
      → h.number_of_packets ≤ 1024
      → length pad ≡ 8
      → lookup h.seqnum s.state.submits ≡ none
      → find_unlinked h.seqnum s.state.unlinked ≡ none
      → pending r ≡ reply_bytes 3 h.seqnum 0 0 0 (ret_submit_body h h.number_of_packets pad) ++ rest
      → read_one meanwhile s r ≡ err (invalid (unknown_seqnum h.seqnum))
  unfolding read_one read_reply
  read_one_unknown meanwhile s r h pad rest v few pads before unknown e =
      let (r1, e1, p1) =
        read_reply_header-submit r h h.number_of_packets 0 0 0 pad rest v (omega arith) pads e in
      let count : h.number_of_packets == 0xffff_ffff ≡ false = ground arith in
      let lost : find_request h.seqnum s.state ≡ err (invalid (unknown_seqnum h.seqnum)) =
        unfold find_request in ground arith in
      rw (e1, count, le→ltb 1024 h.number_of_packets few, lost)
