-- ===== src/ExtendedTx/Data.antt =====
-- msg_extended_tx.go: the data, and the operations on it that touch no stream.
use go_wire.Prelude.{List, ◌∷◌, length, All, ℕ, ◌<◌, ◌++◌, [], ◌≤◌, map, ◌^◌}
use go_wire.Limits.{max_tx_out_per_message, max_tx_in_per_message}
use go_wire.Tx.Copy.{copy_script, copy_tx_out}
use go_wire.Tx.Data.{
  OutPoint, max_tx_in_sequence_num, MsgTx, IsOutPoint, TxIn, TxOut, IsTxOut, IsScript,
}

pub record ExtendedTxIn : Type 0 where
  pub previous_out_point : OutPoint
  pub previous_tx_satoshis : ℕ
  pub previous_tx_script : List ℕ
  pub signature_script : List ℕ
  pub sequence : ℕ

pub record MsgExtendedTx : Type 0 where
  pub version : ℕ
  pub tx_in : List ExtendedTxIn
  pub tx_out : List TxOut
  pub lock_time : ℕ

pub new_extended_tx_in : OutPoint → List ℕ → ℕ → List ℕ → ExtendedTxIn
new_extended_tx_in prev_out signature_script satoshis previous_tx_script = record {
  previous_out_point = prev_out;
  previous_tx_satoshis = satoshis;
  previous_tx_script = previous_tx_script;
  signature_script = signature_script;
  sequence = max_tx_in_sequence_num;
}

pub new_msg_extended_tx : ℕ → MsgExtendedTx
new_msg_extended_tx version = record { version = version; tx_in = []; tx_out = []; lock_time = 0 }

pub add_extended_tx_in : MsgExtendedTx → ExtendedTxIn → MsgExtendedTx
add_extended_tx_in msg ti = record msg { tx_in = msg.tx_in ++ (ti ∷ []) }

pub add_extended_tx_out : MsgExtendedTx → TxOut → MsgExtendedTx
add_extended_tx_out msg to = record msg { tx_out = msg.tx_out ++ (to ∷ []) }

-- The inputs without what they spend.
unfoldable pub copy_tx_in : ExtendedTxIn → TxIn
copy_tx_in ti = record {
  previous_out_point = ti.previous_out_point;
  signature_script = copy_script ti.signature_script;
  sequence = ti.sequence;
}

unfoldable pub copy : MsgExtendedTx → MsgTx
copy msg = record {
  version = msg.version;
  tx_in = map copy_tx_in msg.tx_in;
  tx_out = map copy_tx_out msg.tx_out;
  lock_time = msg.lock_time;
}

abbrev pub IsExtendedTxIn : ℕ → ExtendedTxIn → Type 0
IsExtendedTxIn ebs ti =
    (IsOutPoint ti.previous_out_point
      × IsScript (max_tx_in_per_message ebs) ti.signature_script
      × (ti.sequence < 2 ^ 32))
    × (ti.previous_tx_satoshis < 2 ^ 64)
    × IsScript (max_tx_in_per_message ebs) ti.previous_tx_script

-- What an extended transaction must satisfy to be decoded.
pub record IsExtendedTx (ebs : ℕ) (msg : MsgExtendedTx) : Type 0 where
  pub version : msg.version < 2 ^ 32
  pub few_ins : length msg.tx_in ≤ max_tx_in_per_message ebs
  pub ins : All (IsExtendedTxIn ebs) msg.tx_in
  pub few_outs : length msg.tx_out ≤ max_tx_out_per_message ebs
  pub outs : All (IsTxOut ebs) msg.tx_out
  pub lock_time : msg.lock_time < 2 ^ 32
