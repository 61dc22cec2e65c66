-- ===== src/NetworkInfo.antt =====
-- core/src/network_info.cpp: what the program asks NetworkManager about the connection of an
-- interface, and how it brings an interface up and down. A report stands for the lines that are
-- printed about it.
pub mod Escapes
use betterconn.Prelude.{
  ◌==◌, Bool, true, false, not, ◌&&◌, ◌||◌, Option, none, some, List, [], ◌∷◌, ◌++◌, Text, text_eq,
  if◌then◌else◌,
}
use betterconn.Io.{◌>>=◌, ◌>>◌, pure, skip, Done, when}
use betterconn.Os.{Os, Act, ask, with_result, run, succeeds}
use betterconn.Text.{chars, is_empty, starts_with, take_where}

-- A secret that is kept with a connection
pub data Secret : Type 0 where
  psk : Text → Secret
  enterprise : Text → Text → Secret
  open_network : Secret
  wep_key : Text → Secret
  no_secret : Secret

pub record Info : Type 0 where
  pub connection_name : Text
  pub type : Text
  pub state : Text
  pub ssid_and_security : Option (Text × Text)
  pub mac : Text
  pub ipv4_addr : Text
  pub ipv4_gateway : Text
  pub ipv4_dns : Text

-- Trailing newlines and returns are dropped.
unfoldable pub trim_newlines : Text → Text
trim_newlines [] = []
trim_newlines (c ∷ s) =
    let rest = trim_newlines s in
    if is_empty rest && (c == b'\n' || c == b'\r') then [] else c ∷ rest

unfoldable pub unescape_nmcli : Text → Text
unescape_nmcli [] = []
unescape_nmcli (c ∷ []) = c ∷ []
unescape_nmcli (c ∷ e ∷ s) =
    let escaped = e ∷ unescape_nmcli s in
    let plain = c ∷ unescape_nmcli (e ∷ s) in if c == b'\\' then escaped else plain

-- What stands before the first newline, bar and space
unfoldable pub first_value : Text → Text
unfolding take_where
first_value raw =
    let first_line = take_where (λ c. not (c == b'\n')) raw in
    let first_entry = take_where (λ c. not (c == b'|')) first_line in
    take_where (λ c. not (c == b' ')) first_entry

abbrev or_else : Text → Text → Text
or_else otherwise value = if is_empty value then otherwise else value

module _ ⦃os : Os⦄ where
  open os use {World, exists, popen}

  abbrev printed_or_nothing : Option Text → Text
  printed_or_nothing none = []
  printed_or_nothing (some output) = trim_newlines output

  unfoldable pub run_and_capture : Text → Act Text
  unfolding trim_newlines
  run_and_capture cmd = do printed ← with_result (popen cmd); pure (printed_or_nothing printed)

  unfoldable pub nmcli_device_get : Text → Text → Act Text
  unfolding run_and_capture
  nmcli_device_get field iface = run_and_capture (
      chars "nmcli -t -g " ++ (field ++ (chars " device show " ++ (iface ++ chars " 2>/dev/null"))))

  unfoldable pub active_connection_name : Text → Act Text
  unfolding nmcli_device_get
  active_connection_name iface = nmcli_device_get (chars "GENERAL.CONNECTION") iface

  -- The end of a command about a connection
  abbrev about : Text → Text
  about connection_name = chars " connection show \"" ++ (connection_name ++ chars "\" 2>/dev/null")

  unfoldable pub nmcli_get : Text → Text → Act Text
  unfolding run_and_capture
  nmcli_get field connection_name =
      run_and_capture (chars "nmcli -t -g " ++ (field ++ about connection_name))

  -- A secret, which needs the option `-s`
  unfoldable pub nmcli_secret : Text → Text → Act Text
  unfolding run_and_capture
  nmcli_secret field connection_name =
      run_and_capture (chars "nmcli -s -t -g " ++ (field ++ about connection_name))

  unfoldable pub connection_is_wifi : Text → Act Bool
  unfolding nmcli_get
  connection_is_wifi connection_name = do
    type ← nmcli_get (chars "connection.type") connection_name
    pure (text_eq type (chars "802-11-wireless") || text_eq type (chars "wifi"))

  unfoldable pub connection_key_mgmt : Text → Act Text
  unfolding nmcli_get
  connection_key_mgmt connection_name =
      nmcli_get (chars "802-11-wireless-security.key-mgmt") connection_name

  unfoldable pub connection_has_8021x : Text → Act Bool
  unfolding nmcli_get
  connection_has_8021x connection_name = do
    eap ← nmcli_get (chars "802-1x.eap") connection_name
    pure (not (is_empty eap))

  -- The report of `print_info`, with `none` for an interface without a connection
  unfoldable pub info : Text → Act (Option Info)
  unfolding active_connection_name connection_is_wifi nmcli_get nmcli_device_get first_value
      unescape_nmcli
  info iface = if is_empty iface then pure none else (do
    connection_name ← active_connection_name iface
    if is_empty connection_name then pure none else (do
      is_wifi ← connection_is_wifi connection_name
      type ← nmcli_get (chars "connection.type") connection_name
      state ← nmcli_device_get (chars "GENERAL.STATE") iface
      ipv4_addr ← nmcli_device_get (chars "IP4.ADDRESS") iface
      ipv4_gateway ← nmcli_device_get (chars "IP4.GATEWAY") iface
      ipv4_dns ← nmcli_device_get (chars "IP4.DNS") iface
      mac ← nmcli_device_get (chars "GENERAL.HWADDR") iface
      security ← nmcli_get (chars "802-11-wireless-security.key-mgmt") connection_name
      ssid ← (if is_wifi then nmcli_get (chars "802-11-wireless.ssid") connection_name else pure [])
      pure (
          some (record {
            connection_name = unescape_nmcli connection_name;
            type = or_else (chars "unknown") (unescape_nmcli type);
            state = or_else (chars "unknown") (unescape_nmcli state);
            ssid_and_security =
                if is_wifi
                then some (
                  or_else (chars "n/a") (unescape_nmcli ssid),
                  or_else (chars "none") (unescape_nmcli security),
                )
                else none;
            mac = or_else (chars "unknown") (unescape_nmcli mac);
            ipv4_addr = or_else (chars "unknown") (unescape_nmcli (first_value ipv4_addr));
            ipv4_gateway = or_else (chars "unknown") (unescape_nmcli ipv4_gateway);
            ipv4_dns = or_else (chars "unknown") (unescape_nmcli (first_value ipv4_dns));
          }))))

  -- The secret that `print_secrets` shows, by the kind of the connection
  unfoldable pub secret_of : Text → Bool → Text → Bool → Act Secret
  unfolding nmcli_secret nmcli_get unescape_nmcli
  secret_of connection_name is_wifi key_mgmt has_8021x =
      if text_eq key_mgmt (chars "wpa-psk") || text_eq key_mgmt (chars "sae")
      then (do
        key ← nmcli_secret (chars "802-11-wireless-security.psk") connection_name
        pure (psk (or_else (chars "n/a") (unescape_nmcli key))))
      else if text_eq key_mgmt (chars "wpa-eap") || has_8021x
      then (do
        identity ← nmcli_get (chars "802-1x.identity") connection_name
        password ← nmcli_secret (chars "802-1x.password") connection_name
        pure (
            enterprise (or_else (chars "n/a") (unescape_nmcli identity))
              (or_else (chars "n/a") (unescape_nmcli password))))
      else if text_eq key_mgmt (chars "none") && is_wifi
      then (do
        key ← nmcli_secret (chars "802-11-wireless-security.wep-key0") connection_name
        pure (if is_empty key then open_network else wep_key (unescape_nmcli key)))
      else pure no_secret

  -- The secret of the active connection of an interface, with `none` without a connection. The other
  -- lines of the report are left out.
  unfoldable pub secrets : Text → Act (Option Secret)
  unfolding active_connection_name connection_is_wifi connection_key_mgmt connection_has_8021x
      secret_of
  secrets iface = if is_empty iface then pure none else (do
    connection_name ← active_connection_name iface
    if is_empty connection_name then pure none else (do
      is_wifi ← connection_is_wifi connection_name
      key_mgmt ← connection_key_mgmt connection_name
      has_8021x ← connection_has_8021x connection_name
      secret ← secret_of connection_name is_wifi key_mgmt has_8021x
      pure (some secret)))

  abbrev is_wifi : Text → World → Bool
  is_wifi iface w = exists (chars "/sys/class/net/" ++ (iface ++ chars "/phy80211")) w

  -- Whether a working connection was confirmed
  unfoldable pub force_network_on : Text → Act Bool
  unfolding run_and_capture starts_with
  force_network_on iface = if is_empty iface then pure false else (do
    wifi_iface ← ask (is_wifi iface)
    when wifi_iface (do
      run (chars "rfkill unblock " ++ (iface ++ chars " 2>/dev/null"))
      run (chars "rfkill unblock wifi 2>/dev/null"))
    run (chars "ip link set dev " ++ (iface ++ chars " up 2>/dev/null"))
    run (chars "nmcli device set " ++ (iface ++ chars " managed yes 2>/dev/null"))
    connected ← succeeds (chars "nmcli device connect " ++ (iface ++ chars " 2>/dev/null"))
    came_online ← succeeds (chars "nm-online -q --timeout=15 2>/dev/null")
    state ←
        run_and_capture
          (chars "nmcli -t -g GENERAL.STATE device show " ++ (iface ++ chars " 2>/dev/null"))
    pure (connected && (came_online || starts_with (chars "100") state)))

  unfoldable pub force_network_off : Text → Act Done
  force_network_off iface = when (not (is_empty iface)) (do
    wifi_iface ← ask (is_wifi iface)
    run (chars "nmcli device disconnect " ++ (iface ++ chars " 2>/dev/null"))
    run (chars "ip link set dev " ++ (iface ++ chars " down 2>/dev/null"))
    when wifi_iface (run (chars "rfkill block " ++ (iface ++ chars " 2>/dev/null"))))
