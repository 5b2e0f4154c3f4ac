-- ===== src/Rpc.antt =====
-- utils/rpc/rpc.go: the ERC-1654 check of a contract's signature. The ABI encoding, the hash and the
-- contract call of go-ethereum are parameters.
use content_service.Prelude.{String, Bool, [], ◌∷◌}
use content_service.Go.{Result, ok, panicked, Exec, lift, ◌>>=◌}
use content_service.Auth.{Bytes, bytes_equal}

-- ERC-1654 uses this constant when a signature is valid.
abbrev pub expected : Bytes
expected = 0x16 ∷ 0x26 ∷ 0xba ∷ 0x7e ∷ []

-- `pack` encodes the call isValidSignature(hash of value, signature); `call_contract` sends it to
-- the contract at the address.
pub record EthClient (D : Type 0) : Type 0 where
  pub pack : String → String → Result Bytes
  pub call_contract : String → Bytes → Exec D Bytes

-- `res[0:4]`: a reply of fewer than four bytes is a slice out of range.
abbrev pub magic_matches : Bytes → Result Bool
magic_matches (a ∷ b ∷ c ∷ d ∷ rest) = ok (bytes_equal (a ∷ b ∷ c ∷ d ∷ []) expected)
magic_matches _ = panicked

module _ {D : Type 0} (client : EthClient D) where
  open client use {pack, call_contract}

  unfoldable pub validate_dapper_signature : String → String → String → Exec D Bool
  validate_dapper_signature address value signature = do
    packed ← lift (pack value signature)
    res ← call_contract address packed
    lift (magic_matches res)
