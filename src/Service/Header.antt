-- ===== src/Service/Header.antt =====
-- `getXmlHeader`: the first element of a report.
use pandora_agent_win.Base.{
  ℕ, ◌+◌, ◌||◌, [], ◌++◌, Option, none, some, ◌==◌, if◌then◌else◌, take, drop,
}
use pandora_agent_win.Conf.Defs.{Conf, get_value}
use pandora_agent_win.Data.{SystemTime, new_data, get_timestamp}
use pandora_agent_win.Service.Outside.{Outside}
use pandora_agent_win.Text.{Str, bytes, eq_str, is_empty, find}

-- `if (name == "") name = other`.
abbrev pub or_else : (name other : Str) → Str
or_else name other = if is_empty name then other else name

-- `"\" name=\""` and the value.
abbrev pub attribute : (name value : Str) → Str
attribute name value = bytes "\" " ++ (name ++ (bytes "=\"" ++ value))

abbrev pub attribute_if_any : (name value : Str) → Str
attribute_if_any name value = if is_empty value then [] else attribute name value

abbrev cut_at : Str → Option ℕ → Str
cut_at s none = s
cut_at s (some i) = take i s

-- The output up to its first line feed, and up to the first carriage return of that.
unfoldable pub gis_line : Str → Str
gis_line output =
    let line = cut_at output (find output (bytes "\n")) in cut_at line (find line (bytes "\r"))

-- What stands before a comma that is not the first byte, and behind it.
abbrev pub split_comma : Str → Option ℕ → Option (Str × Str)
split_comma s none = none
split_comma s (some i) = if i == 0 then none else some (take i s, drop (i + 1) s)

abbrev pub comma : Str → Option (Str × Str)
comma s = split_comma s (find s (bytes ","))

abbrev longitude_altitude : Option (Str × Str) → Str × Str
longitude_altitude none = ([], [])
longitude_altitude (some p) = p

-- `latitude,longitude,altitude`: the last two are empty unless there are two commas.
abbrev coordinates : Option (Str × Str) → Option (Str × Str × Str)
coordinates none = none
coordinates (some (latitude, rest)) =
    let (longitude, altitude) = longitude_altitude (comma rest) in
    some (latitude, longitude, altitude)

unfoldable pub gis_coordinates : Str → Option (Str × Str × Str)
gis_coordinates result = coordinates (comma (gis_line result))

unfoldable pub gis_text : Option (Str × Str × Str) → Str
gis_text none = []
gis_text (some (latitude, longitude, altitude)) =
    attribute (bytes "latitude") latitude
    ++ (attribute (bytes "longitude") longitude ++ attribute (bytes "altitude") altitude)

-- The position from the settings. `position_description` is read and emptied at once.
unfoldable pub position_text : Conf → Str
position_text conf =
    let latitude = get_value conf (bytes "latitude") in
    let longitude = get_value conf (bytes "longitude") in
    if is_empty latitude || is_empty longitude
    then []
    else attribute (bytes "latitude") latitude
      ++ (attribute (bytes "longitude") longitude
          ++ attribute_if_any (bytes "altitude") (get_value conf (bytes "altitude")))

-- The address: the setting, or the system's where the setting is `auto`.
unfoldable pub address_text : Conf → (system_address : Str) → Str
address_text conf system_address =
    let address = get_value conf (bytes "address") in
    attribute_if_any (bytes "address")
      (if eq_str address (bytes "auto") then system_address else address)

unfoldable pub timestamp_text : Conf → (now : SystemTime) → Str
timestamp_text conf now =
    if eq_str (get_value conf (bytes "autotime")) (bytes "1")
    then []
    else attribute (bytes "timestamp") (get_timestamp (new_data [] now []))

module _ (env : Outside) (now : SystemTime) (gis : Str → Str) where
  -- The position: from the program that `gis_exec` names, whose output `gis` gives, or from the settings.
  abbrev place_text : Conf → Str
  place_text conf =
      let gis_exec = get_value conf (bytes "gis_exec") in
      if is_empty gis_exec then position_text conf else gis_text (gis_coordinates (gis gis_exec))

  -- The attributes before the position, and those behind it.
  abbrev front_text : Conf → Str
  front_text conf =
      bytes "<?xml version=\"1.0\" encoding=\""
      ++ (or_else (get_value conf (bytes "encoding")) (bytes "ISO-8859-1")
          ++ (bytes "\" ?>\n<agent_data agent_name=\""
              ++ (or_else (get_value conf (bytes "agent_name")) env.system_name
                  ++ (attribute (bytes "description") (get_value conf (bytes "description"))
                      ++ (attribute (bytes "version") env.agent_version
                          ++ (timestamp_text conf now
                              ++ (address_text conf env.system_address
                                  ++ (attribute_if_any (bytes "custom_id")
                                        (get_value conf (bytes "custom_id"))
                                      ++ attribute_if_any (bytes "url_address")
                                          (get_value conf (bytes "url_address"))))))))))

  abbrev back_text : Conf → Str
  back_text conf =
      attribute (bytes "interval") (get_value conf (bytes "interval"))
      ++ (attribute (bytes "os_name") env.os_name
          ++ (attribute (bytes "os_version") (env.os_name ++ env.os_version)
              ++ (attribute (bytes "group") (get_value conf (bytes "group"))
                  ++ (attribute (bytes "parent_agent_name")
                        (get_value conf (bytes "parent_agent_name"))
                      ++ bytes "\">\n"))))

  -- `getXmlHeader`.
  unfoldable pub get_xml_header : Conf → Str
  get_xml_header conf = front_text conf ++ (place_text conf ++ back_text conf)
