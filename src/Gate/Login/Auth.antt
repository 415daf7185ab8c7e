-- ===== src/Gate/Login/Auth.antt =====
-- src/gate/services/auth_service: a sign-in needs a platform, an account and a credential.
use some_server.Base.{
  Bool, true, false, [], ◌∷◌, String, if◌then◌else◌, Eq_ℕ, Eq_String, Eq_Bytes, Bytes,
}

pub record GateAuthResult : Type 0 where
  pub ok : Bool
  pub account_id : Bytes
  pub message : String

abbrev pub is_empty : Bytes → Bool
is_empty [] = true
is_empty (_ ∷ _) = false

unfoldable pub validate : Bytes → Bytes → Bytes → GateAuthResult
validate platform account_id credential =
    if is_empty platform
    then record { ok = false; account_id = account_id; message = "platform is empty" }
    else if is_empty account_id
    then record { ok = false; account_id = []; message = "account_id is empty" }
    else if is_empty credential
    then record { ok = false; account_id = account_id; message = "credential is empty" }
    else record { ok = true; account_id = account_id; message = "OK" }
