-- ===== src/JsonFile/Tests.antt =====
-- util/file.go at concrete inputs.
use punch.Common.{ℕ, ◌≡◌, refl, true, none, some, [], ◌∷◌, nat_eq, List}
use punch.Common.Map.{lookup, insert, erase}
use punch.Text.{Text, text, text_eq, same_text}
use punch.JsonFile.{
  Files, Host, Progress, whole, stops_after, write, split_path, temp_path, write_json,
  direct_write_json, copy_file_contents,
}
use punch.JsonFile.Writes.{Written, write_json-Written}
use punch.JsonFile.Direct.{Copied, copy_file_contents-Copied}

abbrev host : Progress → Host
host w = record {
  makes_dirs = true;
  random = text "17";
  creates = true;
  closes = true;
  writes = w;
  renames = true;
  stats = true;
  removes = true;
  chmods = true;
  opens = true;
  truncates = true;
  reads = true;
  syncs = true;
}

abbrev config_json : Text
config_json = text "etc/config.json"

abbrev disk : Files
disk = (config_json, 1 ∷ 2 ∷ []) ∷ (text "b", 5 ∷ []) ∷ []

abbrev object : List ℕ
object = 3 ∷ 4 ∷ []

split_path_config : split_path config_json ≡ (text "etc/", text "config.json")
unfolding split_path
split_path_config = refl

temp_path_config :
    temp_path (host whole) (text "etc/") (text "config.json") ≡ text "etc/.17config.json"
unfolding temp_path
temp_path_config = refl

write_json_whole :
    write_json (host whole) config_json (some object) disk
    ≡ ((config_json, object) ∷ (text "b", 5 ∷ []) ∷ [], none)
unfolding write_json insert erase lookup same_text
write_json_whole = refl

write_json_stopped :
    write_json (host (stops_after 1)) config_json (some object) disk ≡ (disk, some write)
unfolding write_json insert erase lookup same_text
write_json_stopped = refl

write_json-Written_example :
    Written
      (host (stops_after 1))
      config_json
      (some object)
      disk
      (write_json (host (stops_after 1)) config_json (some object) disk)
write_json-Written_example =
    write_json-Written (host (stops_after 1)) config_json (some object) disk

direct_write_json_stopped :
    direct_write_json (host (stops_after 1)) config_json (some object) disk
    ≡ ((config_json, 3 ∷ []) ∷ (text "b", 5 ∷ []) ∷ [], some write)
unfolding direct_write_json insert lookup same_text
direct_write_json_stopped = refl

copy_to_itself :
    copy_file_contents (host whole) (text "b") (text "b") disk
    ≡ ((config_json, 1 ∷ 2 ∷ []) ∷ (text "b", []) ∷ [], none)
unfolding copy_file_contents insert lookup same_text
copy_to_itself = refl

copy_file_contents-Copied_example :
    Copied (text "b") (text "c") disk (copy_file_contents (host whole) (text "b") (text "c") disk)
copy_file_contents-Copied_example =
    copy_file_contents-Copied (host whole) (text "b") (text "c") disk
