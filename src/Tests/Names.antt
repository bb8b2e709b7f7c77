-- ===== src/Tests/Names.antt =====
-- The theorem on the names of wallets at a name.
use bee_engine.Base.{◌≡◌, ◌↔◌, ok}
use bee_engine.Base.Bytes.{Bytes}
use bee_engine.Base.Text.{codes, trim}
use bee_engine.Connect.Messages.{to_ascii_lowercase}
use bee_engine.Wallet.Names.{verify_wallet_name}
use bee_engine.Wallet.Names.Valid.{IsName, verify_wallet_name_iff}

abbrev name : Bytes
name = codes " Alice_01 "

verify_wallet_name_iff_example :
    (verify_wallet_name trim to_ascii_lowercase name ≡ ok tt)
    ↔ IsName (to_ascii_lowercase (trim name))
verify_wallet_name_iff_example = verify_wallet_name_iff trim to_ascii_lowercase name
