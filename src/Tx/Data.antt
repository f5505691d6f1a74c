-- ===== src/Tx/Data.antt =====
-- msg_tx.go: the data of a transaction, and the operations on it that touch no stream.
use go_wire.Prelude.{ℕ, ◌<◌, ◌≤◌, ◌^◌, ◌≡◌, List, [], ◌∷◌, ◌++◌, length, All}
use go_wire.Io.{IsByte}
use go_wire.Limits.{max_tx_in_per_message, max_message_payload, max_tx_out_per_message}

abbrev pub max_tx_in_sequence_num : ℕ
max_tx_in_sequence_num = 0xffff_ffff

pub record OutPoint : Type 0 where
  pub hash : List ℕ
  pub index : ℕ

pub record TxIn : Type 0 where
  pub previous_out_point : OutPoint
  pub signature_script : List ℕ
  pub sequence : ℕ

-- The value is the two's complement pattern of the int64.
pub record TxOut : Type 0 where
  pub value : ℕ
  pub pk_script : List ℕ

pub record MsgTx : Type 0 where
  pub version : ℕ
  pub tx_in : List TxIn
  pub tx_out : List TxOut
  pub lock_time : ℕ

pub new_out_point : List ℕ → ℕ → OutPoint
new_out_point hash index = record { hash = hash; index = index }

pub new_tx_in : OutPoint → List ℕ → TxIn
new_tx_in prev_out signature_script = record {
  previous_out_point = prev_out;
  signature_script = signature_script;
  sequence = max_tx_in_sequence_num;
}

pub new_tx_out : ℕ → List ℕ → TxOut
new_tx_out value pk_script = record { value = value; pk_script = pk_script }

pub new_msg_tx : ℕ → MsgTx
new_msg_tx version = record { version = version; tx_in = []; tx_out = []; lock_time = 0 }

pub add_tx_in : MsgTx → TxIn → MsgTx
add_tx_in msg ti = record msg { tx_in = msg.tx_in ++ (ti ∷ []) }

pub add_tx_out : MsgTx → TxOut → MsgTx
add_tx_out msg to = record msg { tx_out = msg.tx_out ++ (to ∷ []) }

-- The fields fit their Go types.
abbrev pub IsOutPoint : OutPoint → Type 0
IsOutPoint op = ((length op.hash ≡ 32) × All IsByte op.hash) × (op.index < 2 ^ 32)

-- A script within the bound that the decoder puts on it.
abbrev pub IsScript : ℕ → List ℕ → Type 0
IsScript max script = (length script ≤ max) × (length script < 2 ^ 63) × All IsByte script

abbrev pub IsTxIn : ℕ → TxIn → Type 0
IsTxIn ebs ti =
    IsOutPoint ti.previous_out_point
    × IsScript (max_tx_in_per_message ebs) ti.signature_script
    × (ti.sequence < 2 ^ 32)

abbrev pub IsTxOut : ℕ → TxOut → Type 0
IsTxOut ebs to = (to.value < 2 ^ 64) × IsScript (max_message_payload ebs) to.pk_script

-- What a transaction must satisfy to be decoded: the fields fit their types, and the counts and the
-- scripts are within the decoder's bounds.
pub record IsTx (ebs : ℕ) (msg : MsgTx) : Type 0 where
  pub version : msg.version < 2 ^ 32
  pub few_ins : length msg.tx_in ≤ max_tx_in_per_message ebs
  pub ins : All (IsTxIn ebs) msg.tx_in
  pub few_outs : length msg.tx_out ≤ max_tx_out_per_message ebs
  pub outs : All (IsTxOut ebs) msg.tx_out
  pub lock_time : msg.lock_time < 2 ^ 32
