-- ===== src/Ledger/Tx.antt =====
-- internal/ledger/tx.go: the transaction, its payloads, its hash and the errors.
use discourse_points_system.Prelude.{
  ℕ, Bool, true, false, not, Option, none, some, [], ◌++◌, ◌||◌, Bytes, codes, length, replicate,
  get_last?, take, ◌==◌, nat_eq, bytes_eq, ◌-◌, if◌then◌else◌,
}
use discourse_points_system.Prelude.Int.{ℤ, pos}
use discourse_points_system.Prelude.Dict.{Dict, lookup}
use discourse_points_system.Prelude.Exec.{Result, ok, err}

abbrev pub supply_cap : ℤ
supply_cap = pos 50_000_000

abbrev pub treasury_dsc_id : ℤ
treasury_dsc_id = pos 0

-- ed25519.PublicKeySize, ed25519.SignatureSize and sha256.Size
abbrev pub pub_key_len : ℕ
pub_key_len = 32

abbrev pub sig_len : ℕ
sig_len = 64

abbrev pub hash_len : ℕ
hash_len = 32

-- The type `TxType string`: its six constants, and any other string.
pub data TxType : Type 0 where
  genesis transfer rotate_key reclaim_invalid rotate_admin reward_config : TxType
  unknown : Bytes → TxType

pub record Tx : Type 0 where
  pub leaf_index : ℤ
  pub type : TxType
  pub payload : Bytes
  pub sig : Bytes
  pub signer : Bytes
  pub prev_hash : Bytes
  pub tx_hash : Bytes

pub record GenesisPayload : Type 0 where
  pub to : Bytes
  pub treasury_user : Bytes
  pub amount : ℤ
  pub memo : Bytes

-- A value of `map[string]any`: a string, or any other JSON value.
pub data MetaValue : Type 0 where
  text : Bytes → MetaValue
  other : MetaValue

pub record TransferPayload : Type 0 where
  pub from : Bytes
  pub to_discourse_id : ℤ
  pub amount : ℤ
  pub nonce : ℤ
  pub meta : Dict Bytes MetaValue

pub record RotateKeyPayload : Type 0 where
  pub old_pub_key : Bytes
  pub new_pub_key : Bytes
  pub nonce : ℤ

pub record ReclaimInvalidPayload : Type 0 where
  pub admin : Bytes
  pub from_discourse_id : ℤ
  pub amount : ℤ
  pub nonce : ℤ
  pub memo : Bytes

pub record DerivedTxFields : Type 0 where
  pub amount : Option ℤ
  pub to_discourse_id : Option ℤ
  pub reward_source : Bytes

-- The places at which Apply passes an error on inside another.
pub data Context : Type 0 where
  begin ledger_lock last_tx_lookup insert_tx total_balance : Context
  from_account to_account update_from update_to old_account nonce_bump : Context
  admin_account invalid_account update_invalid_account update_treasury : Context

pub data Error : Type 0 where
  bad_sig bad_pub_key bad_hash unknown_account insufficient_funds bad_amount bad_discourse_id :
      Error
  genesis_exists unknown_tx_type self_transfer signer_mismatch : Error
  database_refused genesis_signer payload_json duplicate_tx_hash tx_already_done nil_account : Error
  bad_sig_length : ℕ → Error
  bad_nonce : ℤ → ℤ → Error
  supply_violated : ℤ → Error
  first_tx_not_genesis : TxType → Error
  genesis_amount : ℤ → Error
  wrapped : Context → Error → Error

-- `errors.Is(err, ErrBadNonce)`
unfoldable pub is_bad_nonce : Error → Bool
is_bad_nonce (bad_nonce expected got) = true
is_bad_nonce (wrapped c e) = is_bad_nonce e
is_bad_nonce _ = false

-- The cryptography and the JSON decoder that the package calls. A decoder returns `none` where
-- json.Unmarshal returns an error.
pub record Env : Type 0 where
  pub sha256 : Bytes → Bytes
  pub ed25519_verify : Bytes → Bytes → Bytes → Bool
  pub ed25519_sign : Bytes → Bytes → Bytes
  pub unmarshal_genesis : Bytes → Option GenesisPayload
  pub unmarshal_transfer : Bytes → Option TransferPayload
  pub unmarshal_rotate_key : Bytes → Option RotateKeyPayload
  pub unmarshal_reclaim_invalid : Bytes → Option ReclaimInvalidPayload

-- json.NewEncoder(&buf).Encode(v) with SetEscapeHTML(false), then the newline that it ends with
-- is cut.
unfoldable pub canonical_json {ℓ} : {A : Type ℓ} → (A → Option Bytes) → A → Option Bytes
canonical_json encode v = elim (encode v) [
  | none ↦ none
  | some out ↦ elim (get_last? out) [
    | none ↦ some out
    | some c ↦ some (if c == b'\n' then take (length out - 1) out else out)
  ]
]

unfoldable pub zero_hash : Bytes
zero_hash = replicate hash_len 0

-- `v, ok := meta[key].(string)`
unfoldable pub meta_string : Bytes → Dict Bytes MetaValue → Option Bytes
meta_string key meta = elim (lookup key meta) [
  | none ↦ none
  | some v ↦ elim v [ text s ↦ some s | other ↦ none ]
]

module _ (env : Env) where
  abbrev pub hash_tx : Bytes → Bytes → Bytes → Bytes
  hash_tx payload sig prev = env.sha256 (payload ++ (sig ++ prev))

  unfoldable pub build : TxType → Bytes → Bytes → Bytes → Bytes → Result Error Tx
  build t payload signer sig prev =
      if not (length signer == pub_key_len)
      then err bad_pub_key
      else if not (length sig == sig_len)
      then err (bad_sig_length (length sig))
      else if not (length prev == hash_len)
      then err bad_hash
      else ok (record {
        leaf_index = pos 0;
        type = t;
        payload = payload;
        sig = sig;
        signer = signer;
        prev_hash = prev;
        tx_hash = hash_tx payload sig prev;
      })

  unfoldable pub verify_sig : Bytes → Bytes → Bytes → Bool
  verify_sig signer payload sig =
      if not (length signer == pub_key_len) || not (length sig == sig_len)
      then false
      else env.ed25519_verify signer payload sig

  unfoldable pub derive_tx_fields : TxType → Bytes → Option DerivedTxFields
  derive_tx_fields transfer payload = elim (env.unmarshal_transfer payload) [
    | none ↦ none
    | some p ↦ some (record {
      amount = some p.amount;
      to_discourse_id = some p.to_discourse_id;
      reward_source = elim (meta_string (codes "reward_source") p.meta) [ none ↦ [] | some v ↦ v ];
    })
  ]
  derive_tx_fields reclaim_invalid payload = elim (env.unmarshal_reclaim_invalid payload) [
    | none ↦ none
    | some p ↦ some (record { amount = some p.amount; to_discourse_id = none; reward_source = [] })
  ]
  derive_tx_fields _ payload =
      some (record { amount = none; to_discourse_id = none; reward_source = [] })
