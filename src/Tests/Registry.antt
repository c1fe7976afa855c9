-- ===== src/Tests/Registry.antt =====
-- A run of the registration in main/wifi_manager.c.
use airu_v2_fw.Base.{◌≡◌, refl, none, ◌++◌, replicate, codes}
use airu_v2_fw.Base.Int.{pos}
use airu_v2_fw.Wifi.Registration.{
  RegInfo, save_reg_config, fetch_reg_config, fetch_reg_config-save_reg_config,
}
use airu_v2_fw.Tests.Network.{flash, blank}

abbrev user : RegInfo
user = record { name = codes "Ada" ++ replicate 61 0; email = codes "a@b" ++ replicate 251 0 }

abbrev nobody : RegInfo
nobody = record { name = replicate 64 b'x'; email = replicate 254 b'x' }

user_saves : save_reg_config flash user blank ≡ (pos 0, (save_reg_config flash user blank).1)
unfolding save_reg_config
user_saves = refl

fetch_reg_config-save_reg_config_example :
    fetch_reg_config flash nobody (save_reg_config flash user blank).1 ≡ none
fetch_reg_config-save_reg_config_example =
    fetch_reg_config-save_reg_config flash user nobody blank (save_reg_config flash user blank).1
      refl refl user_saves refl
