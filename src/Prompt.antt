-- ===== src/Prompt.antt =====
-- The texts for pinentry in src/prompt.rs. The process that asks is a parameter of the channels
-- (`Prompt` of Ctaphid/Env) and of the login (`Pins` of Crypto/Pkcs11).
pub mod Escape
pub mod Consent
use f2ido.Prelude.{ℕ, List, [], ◌∷◌, ◌++◌, ◌==◌, if◌then◌else◌}
use f2ido.Prelude.Text.{codes}
use f2ido.Outcome.{M}
use f2ido.Ctaphid.Types.{Bytes}
use f2ido.Crypto.Pkcs11.{Pins}

-- `escape_string`: the loop over the characters. In UTF-8 a newline is one byte, and no part of
-- another character.
unfoldable pub escape_string : List ℕ → List ℕ
escape_string [] = []
escape_string (c ∷ s) =
    let rest = escape_string s in if c == 10 then codes "%0A" ++ rest else c ∷ rest

unfoldable pub read_pin : {W : Type 0} → Pins W → (prompt : Bytes) → M W Bytes
unfolding escape_string
read_pin pins prompt = pins.pin (escape_string prompt)
