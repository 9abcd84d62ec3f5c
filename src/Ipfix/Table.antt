-- ===== src/Ipfix/Table.antt =====
-- The types of the fields that every message knows: initialize_forward and initialize_reverse of
-- src/msg/mnslp_ipfix_field.cpp, with the numbers of include/msg/ipfix_def.h, in the order in which
-- they are added.
pub mod Finding
use m_nslp.Prelude.{ℕ, List, [], ◌∷◌, ◌++◌, Bool, true, false, ◌&&◌, ◌==◌, if◌then◌else◌}
use m_nslp.Ipfix.{Coding, uint, bytes, string, float, ntp, ipaddr, uncoded, FieldType}
use m_nslp.Ipfix.Import.{Decoded, done, refused, bind}

-- The enterprise number of the fields of reverse flows: REV_PEN.
abbrev pub rev_pen : ℕ
rev_pen = 29305

-- The length -1, in the 64 bits of an `ssize_t`.
abbrev pub no_length : ℕ
no_length = 18446744073709551615

abbrev pub entry : ℕ → ℕ → ℕ → Coding → FieldType
entry eno ftype length coding = record {
  eno = eno;
  ftype = ftype;
  length = length;
  coding = coding;
}

unfoldable pub forward_first : List FieldType
forward_first =
    entry 0 1 8 uint
    ∷ entry 0 2 8 uint
    ∷ entry 0 3 8 uint
    ∷ entry 0 4 1 uint
    ∷ entry 0 5 1 uint
    ∷ entry 0 6 1 uint
    ∷ entry 0 7 2 uint
    ∷ entry 0 8 4 ipaddr
    ∷ entry 0 9 1 uint
    ∷ entry 0 10 4 uint
    ∷ entry 0 11 2 uint
    ∷ entry 0 12 4 ipaddr
    ∷ entry 0 13 1 uint
    ∷ entry 0 14 4 uint
    ∷ entry 0 15 4 ipaddr
    ∷ entry 0 16 4 uint
    ∷ entry 0 17 4 uint
    ∷ entry 0 18 4 ipaddr
    ∷ entry 0 19 8 uint
    ∷ entry 0 20 8 uint
    ∷ entry 0 21 4 uint
    ∷ entry 0 22 4 uint
    ∷ entry 0 23 8 uint
    ∷ entry 0 24 8 uint
    ∷ entry 0 25 8 uint
    ∷ entry 0 26 8 uint
    ∷ entry 0 27 16 ipaddr
    ∷ entry 0 28 16 ipaddr
    ∷ entry 0 29 1 uint
    ∷ entry 0 30 1 uint
    ∷ entry 0 31 4 uint
    ∷ entry 0 32 2 uint
    ∷ entry 0 33 1 uint
    ∷ entry 0 34 4 uint
    ∷ entry 0 35 1 uint
    ∷ entry 0 36 2 uint
    ∷ entry 0 37 2 uint
    ∷ entry 0 38 1 uint
    ∷ entry 0 39 1 uint
    ∷ entry 0 40 8 uint
    ∷ entry 0 41 8 uint
    ∷ entry 0 42 8 uint
    ∷ entry 0 44 4 ipaddr
    ∷ entry 0 45 4 ipaddr
    ∷ entry 0 46 1 uint
    ∷ entry 0 47 4 ipaddr
    ∷ entry 0 48 1 uint
    ∷ entry 0 49 1 uint
    ∷ entry 0 50 4 uint
    ∷ entry 0 52 1 uint
    ∷ entry 0 53 1 uint
    ∷ entry 0 54 4 uint
    ∷ entry 0 55 1 uint
    ∷ entry 0 56 6 bytes
    ∷ entry 0 57 6 bytes
    ∷ entry 0 58 2 uint
    ∷ entry 0 59 2 uint
    ∷ entry 0 60 1 uint
    ∷ entry 0 61 1 uint
    ∷ entry 0 62 16 ipaddr
    ∷ entry 0 63 16 ipaddr
    ∷ entry 0 64 4 uint
    ∷ entry 0 70 65535 bytes
    ∷ entry 0 71 65535 bytes
    ∷ entry 0 72 65535 bytes
    ∷ entry 0 73 65535 bytes
    ∷ entry 0 74 65535 bytes
    ∷ entry 0 75 65535 bytes
    ∷ entry 0 76 65535 bytes
    ∷ entry 0 77 65535 bytes
    ∷ entry 0 78 65535 bytes
    ∷ entry 0 79 65535 bytes
    ∷ entry 0 80 6 bytes
    ∷ entry 0 81 6 bytes
    ∷ []

unfoldable pub forward_middle : List FieldType
forward_middle =
    entry 0 85 8 uint
    ∷ entry 0 86 8 uint
    ∷ entry 0 88 2 uint
    ∷ entry 0 90 65535 bytes
    ∷ entry 0 128 4 uint
    ∷ entry 0 129 4 uint
    ∷ entry 0 130 4 ipaddr
    ∷ entry 0 131 16 ipaddr
    ∷ entry 0 132 8 uint
    ∷ entry 0 133 8 uint
    ∷ entry 0 134 8 uint
    ∷ entry 0 135 8 uint
    ∷ entry 0 136 1 uint
    ∷ entry 0 137 8 uint
    ∷ entry 0 138 4 uint
    ∷ entry 0 139 2 uint
    ∷ entry 0 140 16 ipaddr
    ∷ entry 0 141 4 uint
    ∷ entry 0 142 4 uint
    ∷ entry 0 143 4 uint
    ∷ entry 0 144 4 uint
    ∷ entry 0 145 2 uint
    ∷ entry 0 146 1 uint
    ∷ entry 0 147 65535 string
    ∷ entry 0 148 8 uint
    ∷ entry 0 149 4 uint
    ∷ entry 0 150 4 uint
    ∷ entry 0 151 4 uint
    ∷ entry 0 152 8 uint
    ∷ entry 0 153 8 uint
    ∷ entry 0 154 8 ntp
    ∷ entry 0 155 8 ntp
    ∷ entry 0 156 8 ntp
    ∷ entry 0 157 8 ntp
    ∷ entry 0 158 4 uint
    ∷ entry 0 159 4 uint
    ∷ entry 0 160 8 uint
    ∷ entry 0 161 4 uint
    ∷ entry 0 162 4 uint
    ∷ entry 0 163 8 uint
    ∷ entry 0 164 8 uint
    ∷ entry 0 165 8 uint
    ∷ entry 0 166 8 uint
    ∷ entry 0 167 8 uint
    ∷ entry 0 168 8 uint
    ∷ entry 0 169 16 ipaddr
    ∷ entry 0 170 16 ipaddr
    ∷ entry 0 171 8 uint
    ∷ entry 0 172 8 uint
    ∷ entry 0 173 8 uint
    ∷ entry 0 174 8 uint
    ∷ entry 0 175 8 uint
    ∷ entry 0 176 1 uint
    ∷ entry 0 177 1 uint
    ∷ entry 0 178 1 uint
    ∷ entry 0 179 1 uint
    ∷ entry 0 180 2 uint
    ∷ entry 0 181 2 uint
    ∷ entry 0 182 2 uint
    ∷ entry 0 183 2 uint
    ∷ entry 0 184 4 uint
    ∷ entry 0 185 4 uint
    ∷ entry 0 186 2 uint
    ∷ entry 0 187 2 uint
    ∷ entry 0 188 1 uint
    ∷ entry 0 189 1 uint
    ∷ entry 0 190 2 uint
    ∷ entry 0 191 2 uint
    ∷ entry 0 192 1 uint
    ∷ entry 0 193 1 uint
    ∷ entry 0 194 4 uint
    ∷ entry 0 195 1 uint
    ∷ entry 0 196 1 uint
    ∷ entry 0 197 1 uint
    ∷ []

unfoldable pub forward_last : List FieldType
forward_last =
    entry 0 198 8 uint
    ∷ entry 0 199 8 uint
    ∷ entry 0 200 1 uint
    ∷ entry 0 201 4 uint
    ∷ entry 0 202 4 uint
    ∷ entry 0 203 1 uint
    ∷ entry 0 204 4 uint
    ∷ entry 0 205 2 uint
    ∷ entry 0 206 1 uint
    ∷ entry 0 207 1 uint
    ∷ entry 0 208 4 uint
    ∷ entry 0 209 8 uint
    ∷ entry 0 210 65535 bytes
    ∷ entry 0 211 4 ipaddr
    ∷ entry 0 212 16 ipaddr
    ∷ entry 0 213 4 uint
    ∷ entry 0 214 1 uint
    ∷ entry 0 215 1 uint
    ∷ entry 0 216 2 uint
    ∷ entry 0 217 2 uint
    ∷ entry 0 218 8 uint
    ∷ entry 0 219 8 uint
    ∷ entry 0 220 8 uint
    ∷ entry 0 221 8 uint
    ∷ entry 0 222 8 uint
    ∷ entry 0 223 8 uint
    ∷ entry 0 224 8 uint
    ∷ entry 0 237 1 uint
    ∷ entry 0 238 2 uint
    ∷ entry 0 300 8 uint
    ∷ entry 0 301 8 uint
    ∷ entry 0 302 2 uint
    ∷ entry 0 303 2 uint
    ∷ entry 0 304 2 uint
    ∷ entry 0 305 4 uint
    ∷ entry 0 306 4 uint
    ∷ entry 0 307 8 ntp
    ∷ entry 0 308 8 ntp
    ∷ entry 0 309 4 uint
    ∷ entry 0 310 4 uint
    ∷ entry 0 311 8 float
    ∷ entry 0 312 4 uint
    ∷ entry 0 313 65535 bytes
    ∷ entry 0 314 65535 bytes
    ∷ entry 0 315 65535 bytes
    ∷ entry 0 316 65535 bytes
    ∷ entry 0 317 65535 bytes
    ∷ entry 0 318 8 uint
    ∷ entry 0 319 8 uint
    ∷ entry 0 320 8 float
    ∷ entry 0 321 8 float
    ∷ entry 0 322 4 uint
    ∷ entry 0 323 8 uint
    ∷ entry 0 324 8 ntp
    ∷ entry 0 325 8 ntp
    ∷ entry 0 326 8 uint
    ∷ entry 0 327 8 uint
    ∷ entry 0 328 8 uint
    ∷ entry 0 329 8 uint
    ∷ entry 0 330 8 uint
    ∷ entry 0 331 8 uint
    ∷ entry 0 332 8 uint
    ∷ entry 0 333 1 bytes
    ∷ entry 0 334 8 uint
    ∷ entry 0 0 no_length uncoded
    ∷ []

unfoldable pub reverse_first : List FieldType
reverse_first =
    entry rev_pen 1 8 uint
    ∷ entry rev_pen 2 8 uint
    ∷ entry rev_pen 3 8 uint
    ∷ entry rev_pen 4 1 uint
    ∷ entry rev_pen 5 1 uint
    ∷ entry rev_pen 6 1 uint
    ∷ entry rev_pen 7 2 uint
    ∷ entry rev_pen 8 4 ipaddr
    ∷ entry rev_pen 9 1 uint
    ∷ entry rev_pen 10 4 uint
    ∷ entry rev_pen 11 2 uint
    ∷ entry rev_pen 12 4 ipaddr
    ∷ entry rev_pen 13 1 uint
    ∷ entry rev_pen 14 4 uint
    ∷ entry rev_pen 15 4 ipaddr
    ∷ entry rev_pen 16 4 uint
    ∷ entry rev_pen 17 4 uint
    ∷ entry rev_pen 18 4 ipaddr
    ∷ entry rev_pen 19 8 uint
    ∷ entry rev_pen 20 8 uint
    ∷ entry rev_pen 21 4 uint
    ∷ entry rev_pen 22 4 uint
    ∷ entry rev_pen 23 8 uint
    ∷ entry rev_pen 24 8 uint
    ∷ entry rev_pen 25 8 uint
    ∷ entry rev_pen 26 8 uint
    ∷ entry rev_pen 27 16 ipaddr
    ∷ entry rev_pen 28 16 ipaddr
    ∷ entry rev_pen 29 1 uint
    ∷ entry rev_pen 30 1 uint
    ∷ entry rev_pen 31 4 uint
    ∷ entry rev_pen 32 2 uint
    ∷ entry rev_pen 33 1 uint
    ∷ entry rev_pen 34 4 uint
    ∷ entry rev_pen 35 1 uint
    ∷ entry rev_pen 36 2 uint
    ∷ entry rev_pen 37 2 uint
    ∷ entry rev_pen 38 1 uint
    ∷ entry rev_pen 39 1 uint
    ∷ entry rev_pen 40 8 uint
    ∷ entry rev_pen 41 8 uint
    ∷ entry rev_pen 42 8 uint
    ∷ entry rev_pen 44 4 ipaddr
    ∷ entry rev_pen 45 4 ipaddr
    ∷ entry rev_pen 46 1 uint
    ∷ entry rev_pen 47 4 ipaddr
    ∷ entry rev_pen 48 1 uint
    ∷ entry rev_pen 49 1 uint
    ∷ entry rev_pen 50 4 uint
    ∷ entry rev_pen 52 1 uint
    ∷ entry rev_pen 53 1 uint
    ∷ entry rev_pen 54 4 uint
    ∷ entry rev_pen 55 1 uint
    ∷ entry rev_pen 56 6 bytes
    ∷ entry rev_pen 57 6 bytes
    ∷ entry rev_pen 58 2 uint
    ∷ entry rev_pen 59 2 uint
    ∷ entry rev_pen 60 1 uint
    ∷ entry rev_pen 61 1 uint
    ∷ entry rev_pen 62 16 ipaddr
    ∷ entry rev_pen 63 16 ipaddr
    ∷ entry rev_pen 64 4 uint
    ∷ entry rev_pen 70 65535 bytes
    ∷ entry rev_pen 71 65535 bytes
    ∷ entry rev_pen 72 65535 bytes
    ∷ entry rev_pen 73 65535 bytes
    ∷ entry rev_pen 74 65535 bytes
    ∷ entry rev_pen 75 65535 bytes
    ∷ entry rev_pen 76 65535 bytes
    ∷ entry rev_pen 77 65535 bytes
    ∷ entry rev_pen 78 65535 bytes
    ∷ entry rev_pen 79 65535 bytes
    ∷ entry rev_pen 80 6 bytes
    ∷ entry rev_pen 81 6 bytes
    ∷ []

unfoldable pub reverse_middle : List FieldType
reverse_middle =
    entry rev_pen 85 8 uint
    ∷ entry rev_pen 86 8 uint
    ∷ entry rev_pen 88 2 uint
    ∷ entry rev_pen 90 65535 bytes
    ∷ entry rev_pen 128 4 uint
    ∷ entry rev_pen 129 4 uint
    ∷ entry rev_pen 130 4 ipaddr
    ∷ entry rev_pen 131 16 ipaddr
    ∷ entry rev_pen 132 8 uint
    ∷ entry rev_pen 133 8 uint
    ∷ entry rev_pen 134 8 uint
    ∷ entry rev_pen 135 8 uint
    ∷ entry rev_pen 136 1 uint
    ∷ entry rev_pen 137 8 uint
    ∷ entry rev_pen 138 4 uint
    ∷ entry rev_pen 139 2 uint
    ∷ entry rev_pen 140 16 ipaddr
    ∷ entry rev_pen 141 4 uint
    ∷ entry rev_pen 142 4 uint
    ∷ entry rev_pen 143 4 uint
    ∷ entry rev_pen 144 4 uint
    ∷ entry rev_pen 145 2 uint
    ∷ entry rev_pen 146 1 uint
    ∷ entry rev_pen 147 65535 string
    ∷ entry rev_pen 148 8 uint
    ∷ entry rev_pen 149 4 uint
    ∷ entry rev_pen 150 4 uint
    ∷ entry rev_pen 151 4 uint
    ∷ entry rev_pen 152 8 uint
    ∷ entry rev_pen 153 8 uint
    ∷ entry rev_pen 154 8 ntp
    ∷ entry rev_pen 155 8 ntp
    ∷ entry rev_pen 156 8 ntp
    ∷ entry rev_pen 157 8 ntp
    ∷ entry rev_pen 158 4 uint
    ∷ entry rev_pen 159 4 uint
    ∷ entry rev_pen 160 8 uint
    ∷ entry rev_pen 161 4 uint
    ∷ entry rev_pen 162 4 uint
    ∷ entry rev_pen 163 8 uint
    ∷ entry rev_pen 164 8 uint
    ∷ entry rev_pen 165 8 uint
    ∷ entry rev_pen 166 8 uint
    ∷ entry rev_pen 167 8 uint
    ∷ entry rev_pen 168 8 uint
    ∷ entry rev_pen 169 16 ipaddr
    ∷ entry rev_pen 170 16 ipaddr
    ∷ entry rev_pen 171 8 uint
    ∷ entry rev_pen 172 8 uint
    ∷ entry rev_pen 173 8 uint
    ∷ entry rev_pen 174 8 uint
    ∷ entry rev_pen 175 8 uint
    ∷ entry rev_pen 176 1 uint
    ∷ entry rev_pen 177 1 uint
    ∷ entry rev_pen 178 1 uint
    ∷ entry rev_pen 179 1 uint
    ∷ entry rev_pen 180 2 uint
    ∷ entry rev_pen 181 2 uint
    ∷ entry rev_pen 182 2 uint
    ∷ entry rev_pen 183 2 uint
    ∷ entry rev_pen 184 4 uint
    ∷ entry rev_pen 185 4 uint
    ∷ entry rev_pen 186 2 uint
    ∷ entry rev_pen 187 2 uint
    ∷ entry rev_pen 188 1 uint
    ∷ entry rev_pen 189 1 uint
    ∷ entry rev_pen 190 2 uint
    ∷ entry rev_pen 191 2 uint
    ∷ entry rev_pen 192 1 uint
    ∷ entry rev_pen 193 1 uint
    ∷ entry rev_pen 194 4 uint
    ∷ entry rev_pen 195 1 uint
    ∷ entry rev_pen 196 1 uint
    ∷ entry rev_pen 197 1 uint
    ∷ []

unfoldable pub reverse_last : List FieldType
reverse_last =
    entry rev_pen 198 8 uint
    ∷ entry rev_pen 199 8 uint
    ∷ entry rev_pen 200 1 uint
    ∷ entry rev_pen 201 4 uint
    ∷ entry rev_pen 202 4 uint
    ∷ entry rev_pen 203 1 uint
    ∷ entry rev_pen 204 4 uint
    ∷ entry rev_pen 205 2 uint
    ∷ entry rev_pen 206 1 uint
    ∷ entry rev_pen 207 1 uint
    ∷ entry rev_pen 208 4 uint
    ∷ entry rev_pen 209 8 uint
    ∷ entry rev_pen 210 65535 bytes
    ∷ entry rev_pen 211 4 ipaddr
    ∷ entry rev_pen 212 16 ipaddr
    ∷ entry rev_pen 213 4 uint
    ∷ entry rev_pen 214 1 uint
    ∷ entry rev_pen 215 1 uint
    ∷ entry rev_pen 216 2 uint
    ∷ entry rev_pen 217 2 uint
    ∷ entry rev_pen 218 8 uint
    ∷ entry rev_pen 219 8 uint
    ∷ entry rev_pen 220 8 uint
    ∷ entry rev_pen 221 8 uint
    ∷ entry rev_pen 222 8 uint
    ∷ entry rev_pen 223 8 uint
    ∷ entry rev_pen 224 8 uint
    ∷ entry rev_pen 237 1 uint
    ∷ entry rev_pen 238 2 uint
    ∷ entry rev_pen 300 8 uint
    ∷ entry rev_pen 301 8 uint
    ∷ entry rev_pen 302 2 uint
    ∷ entry rev_pen 303 2 uint
    ∷ entry rev_pen 304 2 uint
    ∷ entry rev_pen 305 4 uint
    ∷ entry rev_pen 306 4 uint
    ∷ entry rev_pen 307 8 ntp
    ∷ entry rev_pen 308 8 ntp
    ∷ entry rev_pen 309 4 uint
    ∷ entry rev_pen 310 4 uint
    ∷ entry rev_pen 311 8 float
    ∷ entry rev_pen 312 4 uint
    ∷ entry rev_pen 313 65535 bytes
    ∷ entry rev_pen 314 65535 bytes
    ∷ entry rev_pen 315 65535 bytes
    ∷ entry rev_pen 316 65535 bytes
    ∷ entry rev_pen 317 65535 bytes
    ∷ entry rev_pen 318 8 uint
    ∷ entry rev_pen 319 8 uint
    ∷ entry rev_pen 320 8 float
    ∷ entry rev_pen 321 8 float
    ∷ entry rev_pen 322 4 uint
    ∷ entry rev_pen 323 8 uint
    ∷ entry rev_pen 324 8 ntp
    ∷ entry rev_pen 325 8 ntp
    ∷ entry rev_pen 326 8 uint
    ∷ entry rev_pen 327 8 uint
    ∷ entry rev_pen 328 8 uint
    ∷ entry rev_pen 329 8 uint
    ∷ entry rev_pen 330 8 uint
    ∷ entry rev_pen 331 8 uint
    ∷ entry rev_pen 332 8 uint
    ∷ entry rev_pen 333 1 bytes
    ∷ entry rev_pen 334 8 uint
    ∷ entry rev_pen 0 no_length uncoded
    ∷ []

-- Whether a field is in the container.
unfoldable pub is_known : FieldType → List FieldType → Bool
is_known a [] = false
is_known a (t ∷ rest) =
    let later = is_known a rest in if t.eno == a.eno && t.ftype == a.ftype then true else later

-- AddFieldType
unfoldable pub add_field_type : FieldType → List FieldType → Decoded (List FieldType)
unfolding is_known
add_field_type a types = if is_known a types then refused else done (types ++ a ∷ [])

-- The calls of AddFieldType for a list of types.
unfoldable pub add_field_types : List FieldType → List FieldType → Decoded (List FieldType)
unfolding add_field_type
add_field_types [] types = done types
add_field_types (a ∷ rest) types = bind (add_field_type a types) (add_field_types rest)

-- initialize_forward
unfoldable pub initialize_forward : List FieldType → Decoded (List FieldType)
unfolding add_field_types forward_first forward_middle forward_last
initialize_forward types = add_field_types (forward_first ++ (forward_middle ++ forward_last)) types

-- initialize_reverse
unfoldable pub initialize_reverse : List FieldType → Decoded (List FieldType)
unfolding add_field_types reverse_first reverse_middle reverse_last
initialize_reverse types = add_field_types (reverse_first ++ (reverse_middle ++ reverse_last)) types

-- What `init` makes of the container.
unfoldable pub initialize : List FieldType → Decoded (List FieldType)
unfolding initialize_forward initialize_reverse
initialize types = bind (initialize_forward types) initialize_reverse
