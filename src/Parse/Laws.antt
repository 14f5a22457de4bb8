-- ===== src/Parse/Laws.antt =====
-- The two readers of a transaction agree.
use preconfs_client.Prelude.{ℕ, ◌≡◌, List, ok, ◌>>=◌, arith}
use preconfs_client.Parse.{Codec, parse_signature, parse_static_parts}

module _ {Signature Pubkey : Type 0} (codec : Codec Signature Pubkey) where
  -- The two readers agree on all bytes: `parse_signature` returns the signature that
  -- `parse_static_parts` does, and the same error.
  pub parse_signature-parse_static_parts :
      (bytes : List ℕ)
      → parse_signature codec bytes ≡ (parse_static_parts codec bytes >>= λ parts. ok parts.0)
  unfolding parse_signature parse_static_parts
  parse_signature-parse_static_parts bytes = ground arith
