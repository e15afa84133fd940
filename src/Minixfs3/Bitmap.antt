-- ===== src/Minixfs3/Bitmap.antt =====
-- The bitmaps of inodes and zones, as `print_bitmap`, `find_first_free_inode` and
-- `find_first_free_zone` read them from a buffer at `buf`. Prints are left out: what the last two
-- print is their result.
pub mod Count
pub mod FirstFree
use corrosion.Prelude.{
  ℕ, zero, suc, ◌+◌, ◌*◌, ◌/◌, ◌%◌, ◌^◌, Bool, true, false, ◌||◌, not, ◌==◌, if◌then◌else◌, bit_and,
  Option, none, some, List, [], ◌∷◌,
}
use corrosion.Machine.{Memory}
use corrosion.Minixfs3.{SuperBlock}
use corrosion.Minixfs3.Read.{add_u32}

-- A pattern of alternatives.
abbrev one_of : List ℕ → ℕ → Bool
one_of [] b = false
one_of (x ∷ xs) b = (x == b) || one_of xs b

abbrev with_zero : List ℕ
with_zero = 0 ∷ []

abbrev with_one : List ℕ
with_one = 1 ∷ 2 ∷ 4 ∷ 8 ∷ 16 ∷ 32 ∷ 64 ∷ 128 ∷ []

abbrev with_two : List ℕ
with_two =
    3 ∷ 5 ∷ 6 ∷ 9 ∷ 10 ∷ 12 ∷ 17 ∷ 18 ∷ 20 ∷ 24 ∷ 33 ∷ 34 ∷ 36 ∷ 40 ∷ 48 ∷ 65 ∷ 66 ∷ 68 ∷ 72 ∷ 80
    ∷ 96 ∷ 129 ∷ 130 ∷ 132 ∷ 136 ∷ 144 ∷ 160 ∷ 192 ∷ []

abbrev with_three : List ℕ
with_three =
    7 ∷ 11 ∷ 13 ∷ 14 ∷ 19 ∷ 21 ∷ 22 ∷ 25 ∷ 26 ∷ 28 ∷ 35 ∷ 37 ∷ 38 ∷ 41 ∷ 42 ∷ 44 ∷ 49 ∷ 50 ∷ 52 ∷ 56
    ∷ 67 ∷ 69 ∷ 70 ∷ 73 ∷ 74 ∷ 76 ∷ 81 ∷ 82 ∷ 84 ∷ 88 ∷ 97 ∷ 98 ∷ 100 ∷ 104 ∷ 112 ∷ 131 ∷ 133 ∷ 134
    ∷ 137 ∷ 138 ∷ 140 ∷ 145 ∷ 146 ∷ 148 ∷ 152 ∷ 161 ∷ 162 ∷ 164 ∷ 168 ∷ 176 ∷ 193 ∷ 194 ∷ 196 ∷ 200
    ∷ 208 ∷ 224 ∷ []

abbrev with_four : List ℕ
with_four =
    15 ∷ 23 ∷ 27 ∷ 29 ∷ 30 ∷ 39 ∷ 43 ∷ 45 ∷ 46 ∷ 51 ∷ 53 ∷ 54 ∷ 57 ∷ 58 ∷ 60 ∷ 71 ∷ 75 ∷ 77 ∷ 78
    ∷ 83 ∷ 85 ∷ 86 ∷ 89 ∷ 90 ∷ 92 ∷ 99 ∷ 101 ∷ 102 ∷ 105 ∷ 106 ∷ 108 ∷ 113 ∷ 114 ∷ 116 ∷ 120 ∷ 135
    ∷ 139 ∷ 141 ∷ 142 ∷ 147 ∷ 149 ∷ 150 ∷ 153 ∷ 154 ∷ 156 ∷ 163 ∷ 165 ∷ 166 ∷ 169 ∷ 170 ∷ 172 ∷ 177
    ∷ 178 ∷ 180 ∷ 184 ∷ 195 ∷ 197 ∷ 198 ∷ 201 ∷ 202 ∷ 204 ∷ 209 ∷ 210 ∷ 212 ∷ 216 ∷ 225 ∷ 226 ∷ 228
    ∷ 232 ∷ 240 ∷ []

abbrev with_five : List ℕ
with_five =
    31 ∷ 47 ∷ 55 ∷ 59 ∷ 61 ∷ 62 ∷ 79 ∷ 87 ∷ 91 ∷ 93 ∷ 94 ∷ 103 ∷ 107 ∷ 109 ∷ 110 ∷ 115 ∷ 117 ∷ 118
    ∷ 121 ∷ 122 ∷ 124 ∷ 143 ∷ 151 ∷ 155 ∷ 157 ∷ 158 ∷ 167 ∷ 171 ∷ 173 ∷ 174 ∷ 179 ∷ 181 ∷ 182 ∷ 185
    ∷ 186 ∷ 188 ∷ 199 ∷ 203 ∷ 205 ∷ 206 ∷ 211 ∷ 213 ∷ 214 ∷ 217 ∷ 218 ∷ 220 ∷ 227 ∷ 229 ∷ 230 ∷ 233
    ∷ 234 ∷ 236 ∷ 241 ∷ 242 ∷ 244 ∷ 248 ∷ []

abbrev with_six : List ℕ
with_six =
    63 ∷ 95 ∷ 111 ∷ 119 ∷ 123 ∷ 125 ∷ 126 ∷ 159 ∷ 175 ∷ 183 ∷ 187 ∷ 189 ∷ 190 ∷ 207 ∷ 215 ∷ 219
    ∷ 221 ∷ 222 ∷ 231 ∷ 235 ∷ 237 ∷ 238 ∷ 243 ∷ 245 ∷ 246 ∷ 249 ∷ 250 ∷ 252 ∷ []

abbrev with_seven : List ℕ
with_seven = 127 ∷ 191 ∷ 223 ∷ 239 ∷ 247 ∷ 251 ∷ 253 ∷ 254 ∷ []

abbrev with_eight : List ℕ
with_eight = 255 ∷ []

-- The match has no other byte.
unfoldable pub bit_count : ℕ → ℕ
bit_count byte =
    if one_of with_zero byte
    then 0
    else if one_of with_one byte
    then 1
    else if one_of with_two byte
    then 2
    else if one_of with_three byte
    then 3
    else if one_of with_four byte
    then 4
    else if one_of with_five byte
    then 5
    else if one_of with_six byte
    then 6
    else if one_of with_seven byte
    then 7
    else 8

-- The loop of `print_bitmap`, with `left` rounds to go from byte `i`; `none` is an overflow of the
-- count, which is a `u32`.
count_loop : (left i total_bit_count : ℕ) → (buf : ℕ) → Memory → Option ℕ
unfolding bit_count
count_loop zero i total_bit_count buf m = some total_bit_count
count_loop (suc left) i total_bit_count buf m =
    elim (add_u32 total_bit_count (bit_count (m (buf + i)))) [
      | none ↦ none
      | some sum ↦ count_loop left (i + 1) sum buf m
    ]

-- What `print_bitmap` returns, on the buffer that it has read.
unfoldable pub print_bitmap : (items buf : ℕ) → Memory → Option ℕ
unfolding count_loop
print_bitmap items buf m = count_loop items 0 0 buf m

-- The loop over the bits of a byte.
free_bit : (left bit_idx byte : ℕ) → Option ℕ
free_bit zero bit_idx byte = none
free_bit (suc left) bit_idx byte =
    let rest = free_bit left (bit_idx + 1) byte in
    if bit_and byte (2 ^ bit_idx) == 0 then some bit_idx else rest

-- The loop over the bytes; the result is the number that is printed.
free_loop : (left byte_idx buf : ℕ) → Memory → Option ℕ
unfolding free_bit
free_loop zero byte_idx buf m = none
free_loop (suc left) byte_idx buf m =
    let rest = free_loop left (byte_idx + 1) buf m in
    let byte = m (buf + byte_idx) in
    if byte == 0xff
    then rest
    else elim (free_bit 8 0 byte) [ none ↦ rest | some bit_idx ↦ some (byte_idx * 8 + bit_idx + 1) ]

unfoldable pub find_first_free_inode : SuperBlock → ℕ → Memory → Option ℕ
unfolding free_loop
find_first_free_inode superblock buf m = free_loop (superblock.ninodes / 8) 0 buf m

unfoldable pub find_first_free_zone : SuperBlock → ℕ → Memory → Option ℕ
unfolding free_loop
find_first_free_zone superblock buf m = free_loop (superblock.zones / 8) 0 buf m
