-- ===== src/Host/Walk.antt =====
-- What the ring of src/host.rs finds and writes.
use usbip_macos.Prelude.{
  ℕ, zero, suc, ◌+◌, ◌*◌, ◌≤◌, ◌≡◌, ◌↔◌, ◌⊎◌, refl, subst, true, false, Bool-cases, inl, inr, List,
  some, length, length-take, take, min, ltb, ◌==◌, arith,
}
use usbip_macos.Hci.Constants.{link}
use usbip_macos.Hci.Messages.{RawMessage, message_type, is_valid, transfer_length, buffer, Status}
use usbip_macos.Host.State.{ci_status}
use usbip_macos.Host.Rings.{Machine, message_size, walk, message_at, fill_buffer, complete_head}

module _ (message : ℕ → RawMessage) where
  -- `Ahead n p k q`: from the message at `p` on, the one `k` positions further is at `q`, and `n` messages,
  -- links included, are looked at.
  pub data Ahead : ℕ → ℕ → ℕ → ℕ → Type 0 where
    head :
        (p : ℕ)
        → is_valid (message p) ≡ true
        → (message_type (message p) == link) ≡ false
        → Ahead 1 p 0 p
    beside :
        (n p k q : ℕ)
        → is_valid (message p) ≡ true
        → (message_type (message p) == link) ≡ false
        → Ahead n (p + message_size) k q
        → Ahead (suc n) p (suc k) q
    linked :
        (n p k q : ℕ)
        → is_valid (message p) ≡ true
        → (message_type (message p) == link) ≡ true
        → ((message p).data1 == 0) ≡ false
        → Ahead n (message p).data1 k q
        → Ahead (suc n) p k q

  abbrev pub Within : ℕ → ℕ → ℕ → ℕ → Type 0
  Within fuel p k q = (n : ℕ) × Ahead n p k q × (n ≤ fuel)

  walk_finds : (fuel : ℕ) {n p k q : ℕ} → Ahead n p k q → n ≤ fuel → walk message fuel p k ≡ some q
  unfolding walk
  walk_finds zero (head p v t) h = absurd (omega arith)
  walk_finds zero (beside m p j q v t r) h = absurd (omega arith)
  walk_finds zero (linked m p k q v t d r) h = absurd (omega arith)
  walk_finds (suc fuel) (head p v t) h = rw (v, t) refl
  walk_finds (suc fuel) (beside m p j q v t r) h = rw (v, t) (walk_finds fuel r (omega (arith, h)))
  walk_finds (suc fuel) (linked m p k q v t d r) h =
      rw (v, t, d) (walk_finds fuel r (omega (arith, h)))

  walk_beside :
      (fuel p k q : ℕ)
      → is_valid (message p) ≡ true
      → (message_type (message p) == link) ≡ false
      → ((j : ℕ)
          → walk message fuel (p + message_size) j ≡ some q
          → Within fuel (p + message_size) j q)
      → elim k [ zero ↦ some p | suc j ↦ walk message fuel (p + message_size) j ] ≡ some q
      → Within (suc fuel) p k q
  walk_beside fuel p zero q v t ih e =
      (1, subst (Ahead 1 p 0) (ground (arith, e)) (head p v t), omega arith)
  walk_beside fuel p (suc k) q v t ih e =
      let (n, r, le) = ih k e in (suc n, beside n p k q v t r, omega (arith, le))

  walk_found : (fuel p k q : ℕ) → walk message fuel p k ≡ some q → Within fuel p k q
  unfolding walk
  walk_found zero p k q e = absurd (cc e)
  walk_found (suc fuel) p k q e = elim (Bool-cases (is_valid (message p))) [
    | inr invalid ↦ absurd (let h = rw invalid at e in cc h)
    | inl v ↦ elim (Bool-cases (message_type (message p) == link)) [
      | inl t ↦ elim (Bool-cases ((message p).data1 == 0)) [
        | inl null ↦ absurd (let h = rw (v, t, null) at e in cc h)
        | inr d ↦
            let (n, r, le) = walk_found fuel (message p).data1 k q (rw (v, t, d) at e) in
            (suc n, linked n p k q v t d r, omega (arith, le))
      ]
      | inr t ↦
          walk_beside fuel p k q v t (λ j. walk_found fuel (p + message_size) j q) (rw (v, t) at e)
    ]
  ]

module _ {A : Type 0} ⦃mc : Machine A⦄ where
  -- message_at finds exactly the message that is `ahead` positions after the head, by valid messages
  -- and the links between them, as long as no more than four messages are looked at for each position.
  pub message_at_iff :
      (a : A) (ahead q : ℕ)
      → (message_at a ahead ≡ some q)
        ↔ Within (mc.message_in a) ((ahead + 1) * 4) (mc.current_message a) ahead q
  unfolding message_at
  message_at_iff a ahead q = (
    walk_found (mc.message_in a) ((ahead + 1) * 4) (mc.current_message a) ahead q,
    λ w. walk_finds (mc.message_in a) ((ahead + 1) * 4) w.1 w.2,
  )

  -- A completion writes into the buffer of the head no more than the host gave room for, if anything,
  -- and reports no more.
  pub complete_head-bounded :
      (st : Status) (bytes : List ℕ) (n : ℕ) (a : A)
      → (a' : A) × (m : ℕ) × (complete_head st bytes n a
          ≡ mc.enqueue_completion (mc.current_message a) (ci_status st) m a')
        × (m ≤ transfer_length (mc.message_in a (mc.current_message a)))
        × ((a' ≡ a)
            ⊎ ((bs : List ℕ) × (length bs
                  ≤ transfer_length (mc.message_in a (mc.current_message a)))
                × (a' ≡ mc.copy_to (buffer (mc.message_in a (mc.current_message a))) bs a)))
  unfolding complete_head fill_buffer
  complete_head-bounded st bytes n a =
      let msg = mc.message_in a (mc.current_message a) in
      let k = min (length bytes) (transfer_length msg) in
      (
        fill_buffer msg bytes a,
        min n (transfer_length msg),
        refl,
        omega arith,
        elim (Bool-cases (ltb 0 k)) [
          | inl some_bytes ↦
              inr (take k bytes, omega (arith, length-take k bytes), rw some_bytes refl)
          | inr nothing ↦ inl (rw nothing refl)
        ],
      )
