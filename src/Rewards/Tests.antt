-- ===== src/Rewards/Tests.antt =====
-- A reward paid from a toy treasury, and the theorems on rewards applied to it.
use discourse_points_system.Prelude.{
  ℕ, zero, suc, ◌≤◌, bytes_eqb, bytes_eq, ◌==◌, true, false, Option, none, some, [], ◌∷◌, ◌++◌,
  Bytes, codes, replicate, nat_eqb, get_last?-append_one, take-append_one, ◌≡◌, refl, ap, sym, ◌∙◌,
  arith, if◌then◌else◌,
}
use discourse_points_system.Prelude.Int.{ℤ, pos, negsuc, add64, sub64, wrap64, ◌+ℤ◌, ◌-ℤ◌}
use discourse_points_system.Prelude.Exec.{Result, ok, err, ◌>>=◌}
use discourse_points_system.Prelude.Dict.{lookup, insert, erase}
use discourse_points_system.Ledger.Tx.{
  Env, Tx, TxType, TransferPayload, supply_cap, canonical_json, build, verify_sig, zero_hash,
  meta_string,
}
use discourse_points_system.Ledger.Apply.{
  apply, apply_within, execute, dispatch, position, apply_genesis, apply_transfer, check_supply,
  equal_bytes, recipient, pending_username, treasury_username, requires_full_supply_check,
}
use discourse_points_system.Ledger.MemStore.{
  MemStore, mem_store, new_mem_store, begin, commit, rollback, lock_ledger, last_tx, insert_tx,
  genesis_exists, total_balance, upsert_account, get_account_by_pub_key,
  get_account_by_discourse_id, note_key, forget_key,
}
use discourse_points_system.Ledger.Invariant.{IsLedger}
use discourse_points_system.Ledger.History.{submit_all, submit_all-IsLedger}
use discourse_points_system.Store.RewardEvents.{
  event_id_eq, RewardTables, EventError, try_reserve_reward_event, complete_reward_event,
  get_reward_amount,
}
use discourse_points_system.Store.RewardEvents.Permanent.{IsPaid}
use discourse_points_system.Rewards.{
  World, PayError, PaymentResult, pay_reward_once, sign_and_apply_transfer,
  sign_and_apply_transfer_once, event_signup_bonus, unpaid,
}
use discourse_points_system.Rewards.Webhook.{
  Request, Hooks, webhook, verify_sig as verify_webhook, signature_header, type_header,
  signature_prefix,
}
use discourse_points_system.Rewards.Webhook.Trigger.{IsPaidFor, webhook-IsEvent}
use discourse_points_system.Prelude.Text.{has_prefix, hex_decode}
use discourse_points_system.Rewards.Payment.{Call, pg_service, event_id, pay, is_charged}
use discourse_points_system.Rewards.Payment.Once.{times_paid, times_paid-bound}
use discourse_points_system.Rewards.Payment.Charge.{Decodes, IsCharge, payment-IsCharge}

abbrev first_byte : Bytes → ℕ
first_byte [] = 0
first_byte (b ∷ bs) = b

abbrev key : ℕ → Bytes
key n = replicate 32 n

abbrev sign : ℤ → ℕ
sign (pos n) = 0
sign (negsuc n) = 1

abbrev size : ℤ → ℕ
size (pos n) = n
size (negsuc n) = n

abbrev to_int : ℕ → ℕ → ℤ
to_int zero n = pos n
to_int (suc s) n = negsuc n

to_int-parts : (z : ℤ) → to_int (sign z) (size z) ≡ z
to_int-parts (pos n) = refl
to_int-parts (negsuc n) = refl

-- An encoding of a transfer, and its decoder.
abbrev front : TransferPayload → Bytes
front p =
    sign p.to_discourse_id
    ∷ size p.to_discourse_id
    ∷ sign p.amount
    ∷ size p.amount
    ∷ sign p.nonce
    ∷ size p.nonce
    ∷ p.from

abbrev encode : TransferPayload → Option Bytes
encode p = some (front p ++ b'\n' ∷ [])

abbrev decode : Bytes → Option TransferPayload
decode (s₁ ∷ n₁ ∷ s₂ ∷ n₂ ∷ s₃ ∷ n₃ ∷ from) = some (record {
  from = from;
  to_discourse_id = to_int s₁ n₁;
  amount = to_int s₂ n₂;
  nonce = to_int s₃ n₃;
  meta = [];
})
decode _ = none

abbrev toy_env : Env
toy_env = record {
  sha256 = λ b. replicate 32 (first_byte b);
  ed25519_verify = λ key payload sig. nat_eqb (first_byte sig) (first_byte payload);
  ed25519_sign = λ key payload. replicate 64 (first_byte payload);
  unmarshal_genesis =
      λ _. some (record { to = key 7; treasury_user = []; amount = supply_cap; memo = [] });
  unmarshal_transfer = decode;
  unmarshal_rotate_key = λ _. none;
  unmarshal_reclaim_invalid = λ _. none;
}

encode-front : (p : TransferPayload) → canonical_json encode p ≡ some (front p)
unfolding canonical_json
encode-front p =
    ground (arith, get_last?-append_one (front p) b'\n', take-append_one (front p) b'\n')

decodes : Decodes toy_env encode
decodes p b h = (
  record {
    from = p.from;
    to_discourse_id = to_int (sign p.to_discourse_id) (size p.to_discourse_id);
    amount = to_int (sign p.amount) (size p.amount);
    nonce = to_int (sign p.nonce) (size p.nonce);
    meta = [];
  },
  ap decode (sym (bytes_of (sym (encode-front p) ∙ h))),
  refl,
  to_int-parts p.to_discourse_id,
  to_int-parts p.amount,
  to_int-parts p.nonce,
)
  where
    bytes_of : {a b : Bytes} → some a ≡ some b → a ≡ b
    bytes_of e = ground arith

abbrev genesis_tx : Tx
genesis_tx = record {
  leaf_index = pos 0;
  type = TxType.genesis;
  payload = 1 ∷ [];
  sig = replicate 64 1;
  signer = key 7;
  prev_hash = [];
  tx_hash = [];
}

abbrev treasury : MemStore
treasury = (apply toy_env mem_store genesis_tx new_mem_store).2

treasury-IsLedger : IsLedger toy_env treasury
unfolding submit_all
treasury-IsLedger = submit_all-IsLedger toy_env (genesis_tx ∷ [])

abbrev world : World MemStore RewardTables
world = record {
  db = treasury;
  table = record {
    events = [];
    config = (event_signup_bonus, record { amount = pos 100; enabled = true }) ∷ [];
    now = 1_000;
  };
}

abbrev signup : Call
signup = record {
  event_type = event_signup_bonus;
  event_key = codes "user:5";
  to = pos 5;
  username = codes "ann";
  source = event_signup_bonus;
  delay = 10;
}

abbrev paid : Result (PayError EventError) PaymentResult × World MemStore RewardTables
paid = pay toy_env mem_store [] (key 7) encode signup world

abbrev result : Result (PayError EventError) PaymentResult → PaymentResult
result (ok r) = r
result (err e) = unpaid []

runs :
    ((result paid.0).paid ≡ true)
    × (paid.0 ≡ ok (result paid.0))
    × (is_charged (pay toy_env mem_store [] (key 7) encode signup paid.1).0 ≡ false)
unfolding apply apply_within execute dispatch position apply_genesis apply_transfer check_supply
    equal_bytes recipient pending_username treasury_username requires_full_supply_check begin commit
    rollback lock_ledger last_tx insert_tx genesis_exists total_balance upsert_account
    get_account_by_pub_key get_account_by_discourse_id note_key forget_key build verify_sig ◌>>=◌
    bytes_eqb lookup insert erase zero_hash meta_string add64 sub64 wrap64 ◌+ℤ◌ ◌-ℤ◌ canonical_json
    pay_reward_once sign_and_apply_transfer sign_and_apply_transfer_once try_reserve_reward_event
    complete_reward_event get_reward_amount
runs = (refl, refl, refl)

payment-IsCharge_example :
    (tx : Tx) × ((result paid.0).tx ≡ some tx)
    × IsCharge toy_env [] (key 7) encode (pos 5) (result paid.0).amount treasury paid.1.db tx
    × IsPaid (event_id signup) tx.tx_hash paid.1.table
payment-IsCharge_example =
    payment-IsCharge toy_env [] (key 7) encode signup world paid.1 (result paid.0) decodes
      treasury-IsLedger
      (ap (λ (r : Result (PayError EventError) PaymentResult). (r, paid.1)) runs.1) runs.0

times_paid-bound_example :
    times_paid toy_env mem_store []
      (key 7)
      encode
      (event_id signup)
      (signup ∷ signup ∷ signup ∷ [])
      world
    ≤ 1
times_paid-bound_example =
    times_paid-bound toy_env mem_store [] (key 7) encode (event_id signup)
      (signup ∷ signup ∷ signup ∷ []) world

abbrev completed : RewardTables
completed = (complete_reward_event (event_id signup) (1 ∷ []) world.table).1

completes : (complete_reward_event (event_id signup) (1 ∷ []) world.table).0 ≡ ok tt
unfolding complete_reward_event lookup
completes = refl

-- A webhook of a user's activation, whose signature is the empty MAC of a toy hash.
abbrev toy_hooks : Hooks
toy_hooks = record {
  hmac_sha256 = λ secret body. body;
  webhook_secret = [];
  unmarshal_user = λ _. some (record { id = pos 5; username = codes "ann"; active = true });
  unmarshal_post = λ _. none;
}

abbrev toy_header : Bytes → Bytes
toy_header h =
    if h == signature_header
    then codes "sha256=0a1B"
    else if h == type_header
    then codes "user"
    else codes "user_activated"

abbrev activation : Request
activation = record { header = toy_header; body = some (10 ∷ 27 ∷ []) }

abbrev hooked : World MemStore RewardTables
hooked = (webhook toy_hooks (pg_service toy_env mem_store [] (key 7) encode) activation world).1

webhook-IsEvent_example :
    IsPaidFor toy_hooks (pg_service toy_env mem_store [] (key 7) encode) activation world hooked
webhook-IsEvent_example =
    webhook-IsEvent toy_hooks (pg_service toy_env mem_store [] (key 7) encode) activation world

accepts :
    verify_webhook toy_hooks
      (pg_service toy_env mem_store [] (key 7) encode)
      activation
      (10 ∷ 27 ∷ [])
    ≡ true
unfolding verify_webhook signature_header type_header signature_prefix has_prefix hex_decode
    bytes_eqb
accepts = refl
