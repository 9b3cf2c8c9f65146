-- ===== src/Trust/Judgment/Identity.antt =====
-- feature/trust/judgment/identity.rs: the identity that a judgment is about.
-- `decode` is `decode_base64url_nopad_array` of format/codec, which calls the `base64` crate.
use kapsaro.Base.{ℕ, List, Text}
use kapsaro.Errors.{Result, ok, ◌>>=◌}
use kapsaro.Model.PublicKey.{PublicKey}
use kapsaro.Identity.Handle.{member_handle}
use kapsaro.Identity.Kid.{from_canonical}

pub record TrustIdentity : Type 0 where
  pub member_handle : Text
  pub kid : Text
  pub sig_x : List ℕ

-- `decode_base64url_nopad_array`
abbrev pub DecodeKey : Type 0
DecodeKey = Text → Result (List ℕ)

-- The kid of a stored document is read before the key bytes, the handle last.
unfoldable pub from_public_key : DecodeKey → PublicKey → Result TrustIdentity
from_public_key decode public_key = do
  kid ← from_canonical public_key.protected.kid
  sig_x ← decode public_key.protected.keys.sig.x
  handle ← member_handle public_key.protected.subject_handle
  ok (record { member_handle = handle; kid = kid; sig_x = sig_x })
