-- ===== src/Client/Sentinel.antt =====
-- The sentinel of native_client/internal/sentinel: a tick of Watch and Heartbeat (health.go),
-- NetworkAudit and GetDiagnosticSummaries (networking.go). What the network answers is a parameter;
-- `none` stands for a panic.
use skype7_reborn.Prelude.{
  ℕ, ◌-◌, String, Bool, true, false, not, Option, none, some, List, [], ◌∷◌, ◌++◌, ◌==◌, ltb,
  length, if◌then◌else◌,
}
use skype7_reborn.Prelude.Text.{append}
use skype7_reborn.Client.Stun.{Bytes, parse_stun_mapped_address}

pub record Sentinel : Type 0 where
  pub last_heartbeat : ℕ
  pub is_healthy : Bool
  -- What OnIssue was called with
  pub issues : List String

-- In nanoseconds
abbrev pub stale_after : ℕ
stale_after = 60000000000

-- One tick of the watch: whether reconnecting succeeds, and the time when it returns.
unfoldable pub tick : ℕ → Bool → ℕ → Sentinel → Sentinel
tick now reconnected later s =
    if ltb stale_after (now - s.last_heartbeat)
    then (if reconnected
        then record {
          last_heartbeat = later;
          is_healthy = true;
          issues = s.issues ++ "stale_connection" ∷ [];
        }
        else record s { is_healthy = false; issues = s.issues ++ "stale_connection" ∷ [] })
    else s

unfoldable pub heartbeat : ℕ → Sentinel → Sentinel
heartbeat now s = record s { last_heartbeat = now }

pub record Network : Type 0 where
  pub resolves : Bool
  pub dials : Bool
  pub writes : Bool
  -- The datagram that arrives within three seconds, cut at 1024 bytes
  pub reply : Option Bytes
  pub local_addr : String

pub record Audit : Type 0 where
  pub public_ip : String
  pub udp_open : Bool
  pub recommendation : String

unfoldable pub verified : String → Audit
verified text =
    let shown = if text == "" then "Unknown (STUN response unparseable)" else text in
    record {
      public_ip = shown;
      udp_open = true;
      recommendation = append "UDP path verified. NAT-mapped address: " shown;
    }

unfoldable pub unverified : String → String → Audit
unverified where_from advice = record {
  public_ip = where_from;
  udp_open = false;
  recommendation = advice;
}

abbrev pub no_reply : String
no_reply =
    "WARNING: STUN reply not received within 3s. UDP may be blocked outbound. Try `sudo ufw allow out 19302/udp`."

unfoldable pub audit_reply : Network → Bytes → Option Audit
unfolding verified unverified parse_stun_mapped_address
audit_reply net resp =
    if ltb (length resp) 20
    then some (unverified net.local_addr no_reply)
    else elim (parse_stun_mapped_address resp) [ none ↦ none | some text ↦ some (verified text) ]

unfoldable pub network_audit : Network → Option Audit
unfolding audit_reply unverified
network_audit net =
    if not net.resolves
    then some (unverified "Unknown" "DNS lookup failed for STUN server.")
    else if not net.dials
    then some (unverified "Unknown" "CRITICAL: Could not open UDP socket. Check firewall.")
    else if not net.writes
    then some (unverified "Unknown" "CRITICAL: UDP write failed. Check egress on port 19302.")
    else elim net.reply [
      | none ↦ some (unverified net.local_addr no_reply)
      | some resp ↦ audit_reply net resp
    ]

unfoldable pub bool_text : Bool → String
bool_text true = "true"
bool_text false = "false"

unfoldable pub get_diagnostic_summaries : Network → Option String
unfolding network_audit bool_text
get_diagnostic_summaries net = elim (network_audit net) [
  | none ↦ none
  | some a ↦ some (
      append "Phaze SENTINEL REPORT\n-----------------------\nSystem: " (
        append (if a.udp_open then "HEALTHY" else "DEGRADED") (
          append "\nPublic Endpoint: " (
            append a.public_ip (
              append "\nMedia Path: "
                (append (bool_text a.udp_open) (append "\n\nADVICE:\n" a.recommendation)))))))
]
