-- ===== src/Channel/Config.antt =====
-- The channel configuration of renet/src/channel/mod.rs. A time counts nanoseconds.
use renet.Base.{ℕ, List, [], ◌∷◌}

pub data SendType : Type 0 where
  unreliable : SendType
  reliable_ordered : (resend_time : ℕ) → SendType
  reliable_unordered : (resend_time : ℕ) → SendType

pub record ChannelConfig : Type 0 where
  pub channel_id : ℕ
  pub max_memory_usage_bytes : ℕ
  pub send_type : SendType

abbrev pub default_config : List ChannelConfig
default_config =
    record { channel_id = 0; max_memory_usage_bytes = 5242880; send_type = unreliable }
    ∷ record {
      channel_id = 1;
      max_memory_usage_bytes = 5242880;
      send_type = reliable_unordered 300000000;
    }
    ∷ record {
      channel_id = 2;
      max_memory_usage_bytes = 5242880;
      send_type = reliable_ordered 300000000;
    }
    ∷ []
