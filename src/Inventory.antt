-- ===== src/Inventory.antt =====
-- invvect.go, msg_inv.go, msg_get_data.go and msg_not_found.go: inventory vectors and the three
-- messages that list them. An InvType is its 32-bit number.
pub mod Transfer
pub mod RoundTrip
use go_wire.Prelude.{◌*◌, ◌≤◌, List, All, ◌+◌, ltb, ◌∷◌, length, [], ℕ}
use go_wire.Counted.{read_counted, or_keep, Added, or_fail, write_counted, add_bounded}
use go_wire.Element.{inv_type, hash, Kind, write_elements, read_elements, AllFit}
use go_wire.Io.{pure, Put, ◌>>=◌, Read, refuse_put, message_error, ◌>>◌}
use go_wire.Limits.{max_var_int_payload, hash_size}

abbrev pub max_inv_per_msg : ℕ
max_inv_per_msg = 50000

abbrev pub max_inv_vect_payload : ℕ
max_inv_vect_payload = 4 + hash_size

pub record InvVect : Type 0 where
  pub type : ℕ
  pub hash : List ℕ

pub new_inv_vect : ℕ → List ℕ → InvVect
new_inv_vect typ h = record { type = typ; hash = h }

abbrev pub inv_vect_kinds : List Kind
inv_vect_kinds = inv_type ∷ hash ∷ []

unfoldable pub read_inv_vect : Read InvVect
read_inv_vect = do (t, (h, _)) ← read_elements inv_vect_kinds; pure (record { type = t; hash = h })

unfoldable pub write_inv_vect : InvVect → Put
write_inv_vect iv = write_elements inv_vect_kinds (iv.type, (iv.hash, tt))

pub record MsgInv : Type 0 where
  pub inv_list : List InvVect

unfoldable pub inv_add_inv_vect : List InvVect → InvVect → Added (List InvVect)
inv_add_inv_vect inv_list iv = add_bounded "MsgInv.AddInvVect" max_inv_per_msg inv_list iv

unfoldable pub inv_bsv_decode : Read MsgInv
inv_bsv_decode = do
  list ←
      read_counted "MsgInv.Bsvdecode" max_inv_per_msg read_inv_vect
        (λ l iv. or_fail (inv_add_inv_vect l iv))
  pure (record { inv_list = list })

unfoldable pub inv_bsv_encode : MsgInv → Put
inv_bsv_encode msg =
    refuse_put (ltb max_inv_per_msg (length msg.inv_list)) (message_error "MsgInv.BsvEncode")
      (write_counted write_inv_vect msg.inv_list)

pub record MsgGetData : Type 0 where
  pub inv_list : List InvVect

unfoldable pub get_data_add_inv_vect : List InvVect → InvVect → Added (List InvVect)
get_data_add_inv_vect inv_list iv = add_bounded "MsgGetData.AddInvVect" max_inv_per_msg inv_list iv

unfoldable pub get_data_bsv_decode : Read MsgGetData
get_data_bsv_decode = do
  list ←
      read_counted "MsgGetData.Bsvdecode" max_inv_per_msg read_inv_vect
        (λ l iv. or_fail (get_data_add_inv_vect l iv))
  pure (record { inv_list = list })

unfoldable pub get_data_bsv_encode : MsgGetData → Put
get_data_bsv_encode msg =
    refuse_put (ltb max_inv_per_msg (length msg.inv_list)) (message_error "MsgGetData.BsvEncode")
      (write_counted write_inv_vect msg.inv_list)

pub record MsgNotFound : Type 0 where
  pub inv_list : List InvVect

unfoldable pub not_found_add_inv_vect : List InvVect → InvVect → Added (List InvVect)
not_found_add_inv_vect inv_list iv =
    add_bounded "MsgNotFound.AddInvVect" max_inv_per_msg inv_list iv

-- The error of AddInvVect is ignored here.
unfoldable pub not_found_bsv_decode : Read MsgNotFound
not_found_bsv_decode = do
  list ←
      read_counted "MsgNotFound.Bsvdecode" max_inv_per_msg read_inv_vect
        (λ l iv. or_keep l (not_found_add_inv_vect l iv))
  pure (record { inv_list = list })

unfoldable pub not_found_bsv_encode : MsgNotFound → Put
not_found_bsv_encode msg =
    refuse_put (ltb max_inv_per_msg (length msg.inv_list)) (message_error "MsgNotFound.BsvEncode")
      (write_counted write_inv_vect msg.inv_list)

abbrev pub inv_max_payload_length : ℕ
inv_max_payload_length = max_var_int_payload + max_inv_per_msg * max_inv_vect_payload

-- A vector that its fields can hold, and a list that a message may carry.
abbrev pub IsInvVect : InvVect → Type 0
IsInvVect iv = AllFit inv_vect_kinds (iv.type, (iv.hash, tt))

abbrev pub IsInvList : List InvVect → Type 0
IsInvList list = (length list ≤ max_inv_per_msg) × All IsInvVect list
