-- ===== src/Client/Calls.antt =====
-- CallManager of native_client/internal/chat/webrtc.go and audio.go: its maps, the ICE servers, and the
-- operations that change them. A connection, channel or track of the WebRTC library is a number; what
-- the library answers is a parameter.

use skype7_reborn.Prelude.{
  ℕ, String, Bool, false, Option, none, some, List, [], ◌∷◌, ◌++◌, ◌==◌, map, if◌then◌else◌,
}
use skype7_reborn.Prelude.Dict.{lookup, insert, erase}
use skype7_reborn.Prelude.Text.{split, trim_space}
use skype7_reborn.Wire.{TurnConfig}

pub record IceServer : Type 0 where
  pub urls : List String
  pub username : String
  pub credential : String

pub record Environment : Type 0 where
  pub turn_url : String
  pub turn_user : String
  pub turn_pass : String

abbrev pub stun_server : IceServer
stun_server = record { urls = "stun:stun.l.google.com:19302" ∷ []; username = ""; credential = "" }

abbrev pub open_relay : IceServer
open_relay = record {
  urls =
      "turn:openrelay.metered.ca:80" ∷ "turn:openrelay.metered.ca:443"
      ∷ "turn:openrelay.metered.ca:443?transport=tcp" ∷ [];
  username = "openrelayproject";
  credential = "openrelayproject";
}

unfoldable pub fallback_server : Environment → IceServer
fallback_server env = if env.turn_url == "" then open_relay else record {
  urls = map trim_space (split b',' env.turn_url);
  username = env.turn_user;
  credential = env.turn_pass;
}

-- The server that relays media, after the STUN server.
unfoldable pub relay_server : Environment → Option TurnConfig → IceServer
unfolding fallback_server
relay_server env none = fallback_server env
relay_server env (some t) =
    if t.url == ""
    then fallback_server env
    else record { urls = t.url ∷ []; username = t.username; credential = t.password }

unfoldable pub ice_servers : Environment → Option TurnConfig → List IceServer
unfolding relay_server
ice_servers env dynamic = stun_server ∷ relay_server env dynamic ∷ []

pub record CallManager : Type 0 where
  pub connections : List (String × ℕ)
  pub data_channels : List (String × ℕ)
  pub local_tracks : List (String × ℕ)
  pub local_video_tracks : List (String × ℕ)
  pub remote_tracks : List (String × ℕ)
  pub remote_video_tracks : List (String × ℕ)
  pub pumps : List (String × ℕ)
  pub muted : List (String × Bool)
  pub video_enabled : List (String × Bool)
  pub remote_video_cbs : List (String × ℕ)
  pub ice : List IceServer
  -- The connections that were closed and the pumps that were told to stop
  pub closed : List ℕ
  pub stopped : List ℕ

unfoldable pub new_call_manager : Environment → CallManager
unfolding ice_servers
new_call_manager env = record {
  connections = [];
  data_channels = [];
  local_tracks = [];
  local_video_tracks = [];
  remote_tracks = [];
  remote_video_tracks = [];
  pumps = [];
  muted = [];
  video_enabled = [];
  remote_video_cbs = [];
  ice = ice_servers env none;
  closed = [];
  stopped = [];
}

unfoldable pub set_ice_servers : Environment → Option TurnConfig → CallManager → CallManager
unfolding ice_servers
set_ice_servers env dynamic cm = record cm { ice = ice_servers env dynamic }

unfoldable pub set_muted : String → Bool → CallManager → CallManager
set_muted peer mute cm = record cm { muted = insert peer mute cm.muted }

-- A peer that is not in the map is not muted.
unfoldable pub is_muted : String → CallManager → Bool
is_muted peer cm = elim (lookup peer cm.muted) [ none ↦ false | some m ↦ m ]

unfoldable pub enable_video : String → Bool → CallManager → CallManager
enable_video peer enabled cm = record cm { video_enabled = insert peer enabled cm.video_enabled }

unfoldable pub on_remote_video_frame_for : String → Option ℕ → CallManager → CallManager
on_remote_video_frame_for peer none cm = record cm {
  remote_video_cbs = erase peer cm.remote_video_cbs;
}
on_remote_video_frame_for peer (some cb) cm = record cm {
  remote_video_cbs = insert peer cb cm.remote_video_cbs;
}

-- A pump that runs for the peer is kept.
unfoldable pub start_audio_pump : String → ℕ → CallManager → CallManager
start_audio_pump peer pump cm = elim (lookup peer cm.local_tracks) [
  | none ↦ cm
  | some track ↦ elim (lookup peer cm.pumps) [
    | some running ↦ cm
    | none ↦ record cm { pumps = insert peer pump cm.pumps }
  ]
]

unfoldable pub stop_audio_pump : String → CallManager → CallManager
stop_audio_pump peer cm = elim (lookup peer cm.pumps) [
  | none ↦ cm
  | some pump ↦ record cm { pumps = erase peer cm.pumps; stopped = cm.stopped ++ pump ∷ [] }
]

unfoldable pub close_connection : String → CallManager → CallManager
close_connection peer cm = elim (lookup peer cm.connections) [
  | none ↦ cm
  | some pc ↦ record cm {
    connections = erase peer cm.connections;
    data_channels = erase peer cm.data_channels;
    closed = cm.closed ++ pc ∷ [];
  }
]

unfoldable pub end_call : String → CallManager → CallManager
unfolding stop_audio_pump close_connection
end_call peer cm =
    let ended = close_connection peer (stop_audio_pump peer cm) in
    record ended {
      local_tracks = erase peer ended.local_tracks;
      remote_tracks = erase peer ended.remote_tracks;
    }

-- The servers that CreateOffer and HandleOffer give the connection.
unfoldable pub offer_servers : List IceServer → CallManager → List IceServer
offer_servers [] cm = cm.ice
offer_servers (s ∷ ss) cm = s ∷ ss

-- OnTrack
unfoldable pub on_track : String → Bool → ℕ → CallManager → CallManager
on_track peer is_video track cm =
    if is_video
    then record cm { remote_video_tracks = insert peer track cm.remote_video_tracks }
    else record cm { remote_tracks = insert peer track cm.remote_tracks }
