-- ===== src/Page.antt =====
-- MiniDB/src/buffer/Page.cpp, its header, and the constant of MiniDB/include/common/config.h.
-- The bytes of a page are a list. The access statistics (`last_access_ts`, `access_count`) and the
-- page's own latch, which no other class uses, have no counterpart.
use altas_dbpro.Prelude.{ℕ, ◌+◌, ◌-◌, Bool, true, false, List, replicate, if◌then◌else◌, ltb}
use altas_dbpro.Prelude.Ints.{ℤ, negsuc}

pub data PageTemperature : Type 0 where
  hot cold normal : PageTemperature

-- `page_data` is the field `data` of the source.
pub record Page : Type 0 where
  pub page_data : List ℕ
  pub page_id : ℤ
  pub is_dirty : Bool
  pub pin_count : ℕ
  pub temperature : PageTemperature

abbrev pub page_size : ℕ
page_size = 4096

-- `memset(data, 0, PAGE_SIZE)`.
unfoldable pub zero_bytes : List ℕ
zero_bytes = replicate page_size 0

abbrev pub new_page : Page
new_page = record {
  page_data = zero_bytes;
  page_id = negsuc 0;
  is_dirty = false;
  pin_count = 0;
  temperature = normal;
}

unfoldable pub reset : Page → Page
reset p = record p { page_data = zero_bytes; is_dirty = false; pin_count = 0 }

unfoldable pub set_page_id : ℤ → Page → Page
set_page_id id p = record p { page_id = id }

unfoldable pub pin : Page → Page
pin p = record p { pin_count = p.pin_count + 1 }

unfoldable pub unpin : Page → Page
unpin p = record p { pin_count = if ltb 0 p.pin_count then p.pin_count - 1 else p.pin_count }

unfoldable pub set_dirty : Bool → Page → Page
set_dirty d p = record p { is_dirty = d }

unfoldable pub set_temperature : PageTemperature → Page → Page
set_temperature t p = record p { temperature = t }

unfoldable pub set_data : List ℕ → Page → Page
set_data bytes p = record p { page_data = bytes }

abbrev pub is_hot : PageTemperature → Bool
is_hot hot = true
is_hot _ = false
