-- ===== src/Receive/Settings.antt =====
-- The settings that a SETTINGS frame leaves in its event.
use ngh.Base.{false, ℕ, ◌≡◌, refl, Option, none, some, List, [], ◌∷◌, ◌++◌, ◌==◌, if◌then◌else◌}
use ngh.Base.Dict.{Dict, lookup, insert, lookup-insert, IsDict, insert-IsDict}
use ngh.Settings.{Entry}
use ngh.Engine.{FrameHead, settings_frame}
use ngh.Events.{settings_dict, new_settings_received}
use ngh.Connection.{Connection}
use ngh.Receive.{frame_received}

-- The last value that the entries give to an identifier, or the value before them.
abbrev pub last_value : ℕ → Option ℕ → List Entry → Option ℕ
last_value k before [] = before
last_value k before (e ∷ es) = last_value k (if e.0 == k then some e.1 else before) es

settings_dict-last :
    (k : ℕ) (d : Dict ℕ) (es : List Entry)
    → lookup k (settings_dict d es) ≡ last_value k (lookup k d) es
unfolding settings_dict
settings_dict-last k d [] = refl
settings_dict-last k d (e ∷ es) =
    rw (settings_dict-last k (insert e.0 e.1 d) es, lookup-insert e.0 k e.1 d) refl

settings_dict-IsDict : (d : Dict ℕ) (es : List Entry) → IsDict d → IsDict (settings_dict d es)
unfolding settings_dict
settings_dict-IsDict d [] h = h
settings_dict-IsDict d (e ∷ es) h =
    settings_dict-IsDict (insert e.0 e.1 d) es (insert-IsDict e.0 e.1 d h)

-- A SETTINGS frame that is no acknowledgement publishes one SettingsReceived event, whose mapping
-- has each identifier once, with the last value that the frame gives it.
pub settings_frame_lem :
    {S : Type 0} (k : ℕ) (hd : FrameHead) (entries : List Entry) (c : Connection S)
    → hd.ack ≡ false
    → (settings : Dict ℕ) × ((frame_received (settings_frame hd entries) c).1.events
        ≡ c.events ++ new_settings_received settings ∷ [])
      × IsDict settings
      × (lookup k settings ≡ last_value k none entries)
unfolding frame_received
settings_frame_lem k hd entries c h = (
  settings_dict [] entries,
  rw h refl,
  settings_dict-IsDict [] entries tt,
  settings_dict-last k [] entries,
)
