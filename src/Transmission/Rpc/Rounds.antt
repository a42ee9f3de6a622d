-- ===== src/Transmission/Rpc/Rounds.antt =====
-- A request that nobody answers, one that is answered, and how often its callback is made.
use mathlib.Core.List.{append_assoc}
use zn_tunnel.Prelude.{
  ℕ, zero, suc, ◌≤◌, ◌≡◌, refl, ◌∙◌, Bool, [], ◌∷◌, ◌++◌, Option, none, some, arith, replicate, ltb,
}
use zn_tunnel.Memory.{load_list}
use zn_tunnel.Containers.Order.{nat_eq}
use zn_tunnel.Containers.HashMap
use zn_tunnel.Containers.OrderedMap
use zn_tunnel.Transmission.Rpc.State.{
  Rpc, ControlBlock, no_error, timed_out, failed, Output, sends, completes, request_sending,
  decrement, is_spent,
}
use zn_tunnel.Transmission.Rpc.Timer.{finish_first}

abbrev pub double : ℕ → ℕ
double zero = 0
double (suc n) = suc (suc (double n))

module _ {State Endpoint Callback : Type 0} (endpoint_less : Endpoint → Endpoint → Bool) where
  -- The operations under way end one after the other without an error, `n` of them.
  unfoldable pub settle : ℕ → Rpc State Endpoint Callback → Option (Rpc State Endpoint Callback)
  settle zero rpc = some rpc
  settle (suc n) rpc = elim (finish_first endpoint_less rpc rpc.pending no_error) [
    | none ↦ none
    | some later ↦ settle n later
  ]

  -- The request of control block `c` is the only operation under way, and is being sent.
  pub record Sending (rpc : Rpc State Endpoint Callback) (c : ℕ)
      (b : ControlBlock Endpoint Callback) (callback : Callback) : Type 0 where
    pub alone : rpc.pending ≡ request_sending c ∷ []
    pub held : HashMap.find c rpc.controls ≡ some b
    pub called : b.on_complete ≡ some callback

  -- The datagram of a control block.
  abbrev pub datagram :
      Rpc State Endpoint Callback → ControlBlock Endpoint Callback → Output Endpoint Callback
  datagram rpc b = sends b.endpoint (load_list rpc.memory b.buffer.start b.buffer.size)

  -- One second in which no reply comes: the request is sent again.
  abbrev sent_again :
      Rpc State Endpoint Callback → ℕ → ControlBlock Endpoint Callback → Rpc State Endpoint Callback
  sent_again rpc c b = record rpc {
    controls = HashMap.assign c (record b { remain = decrement b.remain }) rpc.controls;
    pending = request_sending c ∷ [];
    outputs = rpc.outputs ++ datagram rpc b ∷ [];
  }

  settle_again :
      (rpc : Rpc State Endpoint Callback) (c n : ℕ) (b : ControlBlock Endpoint Callback)
      → rpc.pending ≡ request_sending c ∷ []
      → HashMap.find c rpc.controls ≡ some b
      → 2 ≤ b.remain
      → b.remain ≤ 127
      → settle (suc (suc n)) rpc ≡ settle n (sent_again rpc c b)
  unfolding settle finish_first failed decrement is_spent
  settle_again rpc c n b alone held lo hi = ground (arith, alone, held)

  -- The last second: the callback is made with `timed_out`, and the request is forgotten.
  abbrev timed_out_of :
      Rpc State Endpoint Callback
      → ℕ
      → ControlBlock Endpoint Callback
      → Callback
      → Rpc State Endpoint Callback
  timed_out_of rpc c b callback = record rpc {
    controls = HashMap.erase c rpc.controls;
    requesting = OrderedMap.erase ltb b.id rpc.requesting;
    pending = [];
    outputs = rpc.outputs ++ completes callback timed_out none (some c) ∷ [];
  }

  settle_last :
      (rpc : Rpc State Endpoint Callback) (c : ℕ) (b : ControlBlock Endpoint Callback)
      (callback : Callback)
      → Sending rpc c b callback
      → b.remain ≡ 1
      → settle 2 rpc ≡ some (timed_out_of rpc c b callback)
  unfolding settle finish_first failed decrement is_spent
  settle_last rpc c b callback s e = ground (arith, s, e)

  sent_again-Sending :
      (rpc : Rpc State Endpoint Callback) (c : ℕ) (b : ControlBlock Endpoint Callback)
      (callback : Callback)
      → Sending rpc c b callback
      → Sending (sent_again rpc c b) c (record b { remain = decrement b.remain }) callback
  sent_again-Sending rpc c b callback s = record {
    alone = refl;
    held = HashMap.find-assign_self c (record b { remain = decrement b.remain }) rpc.controls;
    called = s.called;
  }

  -- The end of a request that is not answered: nothing is under way, its control block is freed
  -- and its number is free, and these were the outputs.
  pub record GaveUp (before : Rpc State Endpoint Callback) (c : ℕ)
      (b : ControlBlock Endpoint Callback) (callback : Callback) (resent : ℕ)
      (after : Rpc State Endpoint Callback) : Type 0 where
    pub quiet : after.pending ≡ []
    pub freed : HashMap.find c after.controls ≡ none
    pub said :
        after.outputs
        ≡ before.outputs
          ++ (replicate resent (datagram before b)
              ++ completes callback timed_out none (some c) ∷ [])
    pub untouched : (after.memory ≡ before.memory) × (after.next ≡ before.next)

  -- A request that is being sent, with `remain` from 1 to 127 and no reply and no error, is sent
  -- `remain - 1` times more; then its callback is made, once, with `timed_out`.
  pub settle-GaveUp :
      (n : ℕ) (rpc : Rpc State Endpoint Callback) (c : ℕ) (b : ControlBlock Endpoint Callback)
      (callback : Callback)
      → b.remain ≡ suc n
      → suc n ≤ 127
      → Sending rpc c b callback
      → (after : Rpc State Endpoint Callback) × (settle (double (suc n)) rpc ≡ some after)
        × GaveUp rpc c b callback n after
  settle-GaveUp zero rpc c b callback e small s = (
    timed_out_of rpc c b callback,
    settle_last rpc c b callback s e,
    record {
      quiet = refl;
      freed = HashMap.find-erase_self c rpc.controls;
      said = refl;
      untouched = (refl, refl);
    },
  )
  settle-GaveUp (suc n) rpc c b callback e small s =
      let b' : ControlBlock Endpoint Callback = record b { remain = decrement b.remain } in
      let one_less : decrement b.remain ≡ suc n = unfold decrement in omega arith in
      let (after, ran, g) =
        settle-GaveUp n (sent_again rpc c b) c b' callback one_less (omega arith)
          (sent_again-Sending rpc c b callback s) in
      (
        after,
        settle_again rpc c (double (suc n)) b s.alone s.held (omega arith) (omega arith) ∙ ran,
        record {
          quiet = g.quiet;
          freed = g.freed;
          said = g.said ∙ append_assoc rpc.outputs (datagram rpc b ∷ []) _;
          untouched = g.untouched;
        },
      )
