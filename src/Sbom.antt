-- ===== src/Sbom.antt =====
-- src/core/sbom.c: the CycloneDX document. The stream is the list of the bytes that were written.
pub mod RoundTrip
use crimp.Common.{
  Bool, Bytes, List, String, [], codes, if◌then◌else◌, is_nil, ltb, not, take, ℕ, ◌%◌, ◌++◌, ◌+◌,
  ◌-◌, ◌/◌, ◌==◌, ◌∷◌,
}
use crimp.Inventory.{Component, ComponentList}

-- One digit of `%04x`.
abbrev pub hex_digit : ℕ → ℕ
hex_digit d = if ltb d 10 then b'0' + d else b'a' + (d - 10)

-- What `write_json_string` writes for one byte.
unfoldable pub json_char : ℕ → Bytes
json_char c =
    if c == b'"'
    then b'\\' ∷ b'"' ∷ []
    else if c == b'\\'
    then b'\\' ∷ b'\\' ∷ []
    else if c == b'\n'
    then b'\\' ∷ b'n' ∷ []
    else if c == b'\r'
    then b'\\' ∷ b'r' ∷ []
    else if c == b'\t'
    then b'\\' ∷ b't' ∷ []
    else if ltb c 0x20
    then b'\\' ∷ b'u' ∷ b'0' ∷ b'0' ∷ hex_digit (c / 16) ∷ hex_digit (c % 16) ∷ []
    else c ∷ []

unfoldable pub json_chars : Bytes → Bytes
json_chars [] = []
json_chars (c ∷ s) = json_char c ++ json_chars s

-- `write_json_string`
unfoldable pub json_string : Bytes → Bytes
json_string s = b'"' ∷ (json_chars s ++ b'"' ∷ [])

abbrev pub line : String → Bytes
line s = codes s ++ b'\n' ∷ []

-- The `"version"` line, which an empty version leaves out.
abbrev pub version_line : Bytes → Bytes
version_line version =
    if is_nil version then [] else codes "      \"version\": " ++ (json_string version ++ line ",")

-- The body of the loop; `more` is `i + 1 < components->count`.
unfoldable pub component_json : Component → Bool → Bytes
component_json c more =
    line "    {"
    ++ (line "      \"type\": \"library\","
        ++ (codes "      \"name\": "
            ++ (json_string c.component
                ++ (line ","
                    ++ (version_line c.version
                        ++ (line "      \"evidence\": {"
                            ++ (line "        \"occurrences\": ["
                                ++ (codes "          { \"location\": "
                                    ++ (json_string c.path
                                        ++ (line " }"
                                            ++ (line "        ]"
                                                ++ (line "      }"
                                                    ++ (if more
                                                        then line "    },"
                                                        else line "    }")))))))))))))

unfoldable pub components_json : List Component → Bytes
components_json [] = []
components_json (c ∷ cs) = component_json c (not (is_nil cs)) ++ components_json cs

-- `crimp_sbom_write_cyclonedx`
unfoldable pub write_cyclonedx : ComponentList → Bytes
write_cyclonedx components =
    line "{"
    ++ (line "  \"bomFormat\": \"CycloneDX\","
        ++ (line "  \"specVersion\": \"1.6\","
            ++ (line "  \"version\": 1,"
                ++ (line "  \"components\": ["
                    ++ (components_json (take components.count components.items)
                        ++ (line "  ]" ++ line "}"))))))
