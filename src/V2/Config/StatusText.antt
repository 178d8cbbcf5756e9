-- ===== src/V2/Config/StatusText.antt =====
-- The text of a Bedrock status, written and read back.
use ipojknm.Prelude.{Bool, ℕ, ◌^◌, ◌<◌, ◌≡◌, ◌≢◌, refl, ap, List, [], ◌∷◌, All, arith}
use ipojknm.Prelude.Text.{GoString}
use ipojknm.Prelude.Text.Digits.{signed_decimal, atoi-signed_decimal, signed_decimal-lacks}
use ipojknm.Prelude.Join.{split-join}
use ipojknm.Errors.{ok}
use ipojknm.V2.Config.{
  BedrockServerConfig, BedrockStatus, status, status_of, string_to_bedrock_status, number_of,
}

abbrev pub NoSemicolon : GoString → Type 0
NoSemicolon s = All (λ c. c ≢ b';') s

-- What the text can carry: no semicolon in the names, and ints of 64 bits.
pub record IsPlain (s : BedrockStatus) : Type 0 where
  pub edition : NoSemicolon s.edition
  pub text : NoSemicolon s.description.text
  pub text_2 : NoSemicolon s.description.text_2
  pub name : NoSemicolon s.version.name
  pub mode : NoSemicolon s.gamemode.name
  pub protocol : s.version.protocol < 2 ^ 64
  pub online : s.players.online < 2 ^ 64
  pub max : s.players.max < 2 ^ 64
  pub mode_id : s.gamemode.id < 2 ^ 64
  pub ipv4 : s.port.ipv4 < 2 ^ 64
  pub ipv6 : s.port.ipv6 < 2 ^ 64

number_of-signed_decimal : (n : ℕ) → n < 2 ^ 64 → number_of (signed_decimal n) ≡ n
number_of-signed_decimal n h = ap (λ (p : ℕ × Bool). p.0) (atoi-signed_decimal n h)

plain : (n : ℕ) → NoSemicolon (signed_decimal n)
plain n = signed_decimal-lacks b';' n (omega arith) (omega arith)

-- The parts behind the first.
abbrev parts : BedrockStatus → GoString → List GoString
parts s id =
    s.description.text
    ∷ signed_decimal s.version.protocol
    ∷ s.version.name
    ∷ signed_decimal s.players.online
    ∷ signed_decimal s.players.max
    ∷ id
    ∷ s.description.text_2
    ∷ s.gamemode.name
    ∷ signed_decimal s.gamemode.id
    ∷ signed_decimal s.port.ipv4
    ∷ signed_decimal s.port.ipv6
    ∷ []

read_parts :
    (s : BedrockStatus) (id : GoString) → IsPlain s → status_of (s.edition ∷ parts s id) ≡ ok s
unfolding status_of
read_parts s id p =
    rw
      (
        number_of-signed_decimal s.version.protocol p.protocol,
        number_of-signed_decimal s.players.online p.online,
        number_of-signed_decimal s.players.max p.max,
        number_of-signed_decimal s.gamemode.id p.mode_id,
        number_of-signed_decimal s.port.ipv4 p.ipv4,
        number_of-signed_decimal s.port.ipv6 p.ipv6,
      )
      refl

-- StringToBedrockStatus reads back the status whose text Status has written, the ports and a negative
-- number among it, where no name has a semicolon. The server's ID, which stands in the text too, is
-- no part of it.
pub string_to_bedrock_status-status :
    (cfg : BedrockServerConfig)
    → IsPlain cfg.server_status
    → string_to_bedrock_status (status cfg) ≡ ok cfg.server_status
unfolding string_to_bedrock_status status
string_to_bedrock_status-status cfg p =
    let s : BedrockStatus = cfg.server_status in
    rw
      (split-join b';' s.edition (parts s (signed_decimal cfg.id)) (
        p.edition,
        (
          p.text,
          (
            plain s.version.protocol,
            (
              p.name,
              (
                plain s.players.online,
                (
                  plain s.players.max,
                  (
                    plain cfg.id,
                    (
                      p.text_2,
                      (p.mode, (plain s.gamemode.id, (plain s.port.ipv4, (plain s.port.ipv6, tt)))),
                    ),
                  ),
                ),
              ),
            ),
          ),
        ),
      ))
      (read_parts s (signed_decimal cfg.id) p)
