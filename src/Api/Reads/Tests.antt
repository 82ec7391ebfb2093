-- ===== src/Api/Reads/Tests.antt =====
-- Reads of a small ledger, the user of a session cookie, and the theorems applied to them.
use discourse_points_system.Prelude.{
  ◌≡◌, ◌≢◌, ◌⊎◌, refl, arith, some, List, [], ◌∷◌, codes, bytes_eqb, map,
}
use discourse_points_system.Prelude.Int.{pos, int_eq, add64, wrap64, ◌+ℤ◌}
use discourse_points_system.Prelude.Dict.{lookup}
use discourse_points_system.Prelude.Text.{split_dot, hex_decode}
use discourse_points_system.Prelude.Base64.{base64_encode, base64_decode}
use discourse_points_system.TxLog.{hex}
use discourse_points_system.Ledger.MemStore.{MemStore, mem_store, new_mem_store}
use discourse_points_system.Ledger.Tests.{toy_env, key, genesis_tx, fresh}
use discourse_points_system.Auth.{verify_session, get}
use discourse_points_system.Auth.Handlers.{session_cookie}
use discourse_points_system.Auth.Tests.{small_codec, forum, bob}
use discourse_points_system.Api.Submit.{Request, submission, serve, serve_all, submit-world}
use discourse_points_system.Api.CurrentUser.{
  Identity, Credentials, IsLoggedIn, IsDeveloper, resolve_current_user,
  resolve_current_user-IsLoggedIn,
}
use discourse_points_system.Api.Reads.{accounts, balances, treasury, treasury_is, TreasuryView}
use discourse_points_system.Api.Reads.Balances.{shown_row, balances-shown_row}
use discourse_points_system.Api.Reads.Treasury.{IsReport, treasury-supply}

abbrev ann : MemStore
ann = record {
  by_discourse_id =
      (
        pos 5,
        record {
          discourse_id = pos 5;
          pubkey = some (key 9);
          username = codes "ann";
          nonce = pos 2;
          balance = pos 30;
        },
      )
      ∷ [];
  by_pub_key = (key 9, pos 5) ∷ [];
  txs = [];
}

balances-shown_row_example :
    balances {H = Unit} mem_store (some (pos 7 ∷ pos 5 ∷ pos 7 ∷ [])) ann ≡ (
      accounts 2 (map (λ id. shown_row id (lookup id ann.by_discourse_id)) (pos 7 ∷ pos 5 ∷ [])),
      ann,
    )
balances-shown_row_example =
    balances-shown_row Unit (pos 7 ∷ pos 5 ∷ pos 7 ∷ []) ann (omega arith) (omega arith)
      (omega arith)

abbrev requests : List Request
requests = submission genesis_tx.type genesis_tx.payload genesis_tx.sig genesis_tx.signer ∷ []

begun : (serve_all toy_env requests new_mem_store).txs ≢ []
unfolding serve_all serve
begun =
    let logged =
      submit-world toy_env genesis_tx.type genesis_tx.payload genesis_tx.sig genesis_tx.signer
        new_mem_store in
    rw logged (λ e. absurd (ground (arith, fresh.0, e)))

treasury-supply_example :
    (t : TreasuryView) × (treasury {H = Unit} mem_store (serve_all toy_env requests new_mem_store)
      ≡ (treasury_is t, serve_all toy_env requests new_mem_store))
    × IsReport (serve_all toy_env requests new_mem_store).by_discourse_id t
treasury-supply_example = treasury-supply Unit toy_env requests begun

abbrev server : Identity
server = record { dc = some forum; dev_header_auth_token = [] }

abbrev credentials : Credentials
credentials = record {
  session = some (session_cookie small_codec forum bob).value;
  header = λ name. [];
}

resolved :
    resolve_current_user small_codec server credentials (pos 2000) ≡ some (pos 5, codes "bob")
unfolding resolve_current_user session_cookie add64 wrap64 ◌+ℤ◌ lookup bytes_eqb verify_session
    split_dot base64_encode get hex_decode hex base64_decode
resolved = refl

resolve_current_user-IsLoggedIn_example :
    IsLoggedIn small_codec server credentials (pos 2000) (pos 5) (codes "bob")
    ⊎ IsDeveloper server credentials (pos 5) (codes "bob")
resolve_current_user-IsLoggedIn_example =
    resolve_current_user-IsLoggedIn small_codec server credentials (pos 2000) (pos 5) (codes "bob")
      resolved
