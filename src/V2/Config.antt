-- ===== src/V2/Config.antt =====
-- src/config.go: the configs of the second version, and the status of a Bedrock server as the text
-- that a pong carries. An int is held as its 64-bit pattern.
pub mod StatusText
pub mod Files
use ipojknm.Prelude.{ℕ, ◌-◌, ◌^◌, Option, none, some, List, [], ◌∷◌, get_elem?}
use ipojknm.Prelude.Text.{GoString, bytes_of}
use ipojknm.Prelude.Text.Digits.{signed_decimal, atoi}
use ipojknm.Prelude.Split.{split}
use ipojknm.Prelude.Join.{join}
use ipojknm.Errors.{Outcome, ok, fault}

pub record BaseConfig : Type 0 where
  pub listen_to : GoString
  pub proxy_to : GoString

pub record JavaConfig : Type 0 where
  pub base : BaseConfig
  pub domains : List GoString

pub record GameMode : Type 0 where
  pub name : GoString
  pub id : ℕ

pub record Port : Type 0 where
  pub ipv4 : ℕ
  pub ipv6 : ℕ

pub record Version : Type 0 where
  pub name : GoString
  pub protocol : ℕ

pub record Players : Type 0 where
  pub max : ℕ
  pub online : ℕ

pub record Description : Type 0 where
  pub text : GoString
  pub text_2 : GoString

pub record BedrockStatus : Type 0 where
  pub edition : GoString
  pub description : Description
  pub version : Version
  pub players : Players
  pub gamemode : GameMode
  pub port : Port

pub record BedrockServerConfig : Type 0 where
  pub base : BaseConfig
  pub id : ℕ
  pub server_status : BedrockStatus

-- BedrockServerConfig.Status: `fmt.Sprintf("%s;%s;%d;…", …)`
unfoldable pub status : BedrockServerConfig → GoString
status cfg =
    let s = cfg.server_status in
    join b';' s.edition (
      s.description.text
      ∷ signed_decimal s.version.protocol
      ∷ s.version.name
      ∷ signed_decimal s.players.online
      ∷ signed_decimal s.players.max
      ∷ signed_decimal cfg.id
      ∷ s.description.text_2
      ∷ s.gamemode.name
      ∷ signed_decimal s.gamemode.id
      ∷ signed_decimal s.port.ipv4
      ∷ signed_decimal s.port.ipv6
      ∷ [])

-- `n, _ = strconv.Atoi(s)`
abbrev pub number_of : GoString → ℕ
number_of s = (atoi s).0

-- StringToBedrockStatus behind its Split: an index behind the last part panics. The part of the
-- server's ID is passed over.
unfoldable pub status_of : List GoString → Outcome BedrockStatus
status_of
      (edition ∷ text ∷ protocol ∷ name ∷ online ∷ max ∷ id ∷ text_2 ∷ mode ∷ mode_id ∷ ipv4 ∷ ipv6
        ∷ parts) =
    ok (record {
      edition = edition;
      description = record { text = text; text_2 = text_2 };
      version = record { name = name; protocol = number_of protocol };
      players = record { max = number_of max; online = number_of online };
      gamemode = record { name = mode; id = number_of mode_id };
      port = record { ipv4 = number_of ipv4; ipv6 = number_of ipv6 };
    })
status_of _ = fault

unfoldable pub string_to_bedrock_status : GoString → Outcome BedrockStatus
unfolding status_of
string_to_bedrock_status s = status_of (split (b';' ∷ []) s)

-- DefaultBedrockServerConfig; `random` is what rand.Int63 gives.
unfoldable pub default_bedrock_server_config : ℕ → BedrockServerConfig
default_bedrock_server_config random = record {
  base = record { listen_to = []; proxy_to = [] };
  id = random;
  server_status = record {
    edition = bytes_of "MCPE";
    description = record { text = bytes_of "Proxied with Ultraviolet"; text_2 = [] };
    version = record { name = bytes_of "1.19.10"; protocol = 534 };
    players = record { max = 100; online = 0 };
    gamemode = record { name = bytes_of "Survival"; id = 1 };
    port = record { ipv4 = 2 ^ 64 - 1; ipv6 = 2 ^ 64 - 1 };
  };
}

-- DefaultJavaConfig
abbrev pub default_java_config : JavaConfig
default_java_config = record { base = record { listen_to = []; proxy_to = [] }; domains = [] }
