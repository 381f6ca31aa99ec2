-- ===== src/Event.antt =====
-- include/dpor/model/event.hpp: events and their labels, over a payload type `V` (ValueT).
-- A receive matcher is a total predicate: matchers that throw are not modelled.
use cpp_dpor.Prelude.{ℕ, ◌-◌, ◌^◌, Bool, true, false, List, Option, some, none}
use Prim.Native.String.{String}
use cpp_dpor.Errors.{Result, ok, throw, precondition_error}

-- `EventIndex` and `ThreadId` are uint32_t.
abbrev pub max_index : ℕ
max_index = 2 ^ 32 - 1

-- `kMaxThreadId`
abbrev pub max_thread_id : ℕ
max_thread_id = 2 ^ 20 - 1

pub data CommunicationModel : Type 0 where
  async fifo_p2p : CommunicationModel

pub data ReceiveMode : Type 0 where
  blocking nonblocking : ReceiveMode

module _ {ℓ} (V : Type ℓ) where
  -- What a thread sees of a receive or of a choice.
  pub data ObservedValue : Type ℓ where
    value : V → ObservedValue
    bottom : ObservedValue

  pub record ReceiveLabel : Type ℓ where
    pub mode : ReceiveMode
    pub matches : V → Bool

  pub record SendLabel : Type ℓ where
    pub destination : ℕ
    pub value : V

  pub record NondeterministicChoiceLabel : Type ℓ where
    pub value : V
    pub choices : List V

  pub data EventLabel : Type ℓ where
    receive : ReceiveLabel → EventLabel
    send : SendLabel → EventLabel
    nondet : NondeterministicChoiceLabel → EventLabel
    block : EventLabel
    error : String → EventLabel

  pub record Event : Type ℓ where
    pub thread : ℕ
    pub index : ℕ
    pub label : EventLabel

module _ {ℓ} {V : Type ℓ} where
  abbrev pub is_bottom : ObservedValue V → Bool
  is_bottom bottom = true
  is_bottom (ObservedValue.value v) = false

  -- `ObservedValueT::value()`
  pub observed : ObservedValue V → Result V
  observed (ObservedValue.value v) = ok v
  observed bottom = throw precondition_error

  abbrev pub is_blocking : ReceiveLabel V → Bool
  is_blocking r = elim r.mode [ blocking ↦ true | nonblocking ↦ false ]

  abbrev pub is_nonblocking : ReceiveLabel V → Bool
  is_nonblocking r = elim r.mode [ blocking ↦ false | nonblocking ↦ true ]

  -- `ReceiveLabelT::accepts`
  abbrev pub accepts : ReceiveLabel V → V → Bool
  accepts r v = r.matches v

  abbrev pub receive_of : EventLabel V → Option (ReceiveLabel V)
  receive_of (receive r) = some r
  receive_of _ = none

  abbrev pub send_of : EventLabel V → Option (SendLabel V)
  send_of (send s) = some s
  send_of _ = none

  abbrev pub nondet_of : EventLabel V → Option (NondeterministicChoiceLabel V)
  nondet_of (nondet c) = some c
  nondet_of _ = none

  abbrev pub receives : EventLabel V → Bool
  receives (receive r) = true
  receives _ = false

  abbrev pub sends : EventLabel V → Bool
  sends (send s) = true
  sends _ = false

  abbrev pub blocks : EventLabel V → Bool
  blocks block = true
  blocks _ = false

  abbrev pub errs : EventLabel V → Bool
  errs (error m) = true
  errs _ = false

  abbrev pub as_receive : Event V → Option (ReceiveLabel V)
  as_receive e = receive_of e.label

  abbrev pub as_send : Event V → Option (SendLabel V)
  as_send e = send_of e.label

  abbrev pub as_nondeterministic_choice : Event V → Option (NondeterministicChoiceLabel V)
  as_nondeterministic_choice e = nondet_of e.label

  abbrev pub is_receive : Event V → Bool
  is_receive e = receives e.label

  abbrev pub is_send : Event V → Bool
  is_send e = sends e.label

  abbrev pub is_block : Event V → Bool
  is_block e = blocks e.label

  abbrev pub is_error : Event V → Bool
  is_error e = errs e.label

  -- `match_any_value` and `make_receive_label`
  abbrev pub match_any_value : V → Bool
  match_any_value v = true

  abbrev pub make_receive_label : (V → Bool) → ReceiveMode → ReceiveLabel V
  make_receive_label matcher mode = record { mode = mode; matches = matcher }

  abbrev pub make_nonblocking_receive_label : (V → Bool) → ReceiveLabel V
  make_nonblocking_receive_label matcher = make_receive_label matcher nonblocking
