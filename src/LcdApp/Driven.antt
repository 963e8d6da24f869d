-- ===== src/LcdApp/Driven.antt =====
-- The program above the driver: what its writes to the attribute files do to the GPIO lines.
use mad_devicedriver.Prelude.{
  ℕ, ◌≡◌, refl, ap, ◌∙◌, arith, List, [], ◌∷◌, Bool, true, false, Bool-cases, inl, inr, Option,
  none, some, length, ◌==◌, ◌&&◌, if◌then◌else◌,
}
use mad_devicedriver.Prelude.Int.{pos}
use mad_devicedriver.Kernel.{Errno, value, TextApi, parsed}
use mad_devicedriver.Lcd.Bus.{
  Line, lcd_rs, lcd_rw, lcd_en, lcd_d4, lcd_d5, lcd_d6, lcd_d7, Event, set_value, direction_output,
  direction_input, delay,
}
use mad_devicedriver.Lcd.Controller.{Levels, drive, levels_after, settle}
use mad_devicedriver.GpioSysfs
use mad_devicedriver.GpioSysfs.{GpioApi, GpioLaws, GpiodevPrivateData, in_text, out_text}
use mad_devicedriver.LcdApp.Driver.{direction_store, value_store}
use mad_devicedriver.LcdApp.Gpio.{
  Attribute, direction, value_file, path_of, Write, write_file, direction_text, value_text,
  gpio_configure_dir, gpio_write_value, gpio_lcd,
}

-- The writes behind an event of the program.
abbrev pub writes_of : (List ℕ → Option Errno) → Event → List Write
writes_of opening (set_value line v) = (gpio_write_value opening (gpio_lcd line) v).1
writes_of opening (direction_output line v) = (gpio_configure_dir opening (gpio_lcd line) 1).1
writes_of opening (direction_input line) = (gpio_configure_dir opening (gpio_lcd line) 0).1
writes_of opening (delay n) = []

abbrev pub same_text : List ℕ → List ℕ → Bool
same_text [] [] = true
same_text (x ∷ xs) (y ∷ ys) = x == y && same_text xs ys
same_text _ _ = false

abbrev pub index : Line → ℕ
index lcd_rs = 0
index lcd_rw = 1
index lcd_en = 2
index lcd_d4 = 3
index lcd_d5 = 4
index lcd_d6 = 5
index lcd_d7 = 6

-- The attribute file of a path, among those of the seven lines. The kernel names them by the labels of
-- the devices.
abbrev pub find_file : List ℕ → List Line → Option (Line × Attribute)
find_file path [] = none
find_file path (line ∷ lines) =
    let later = find_file path lines in
    if same_text path (path_of (gpio_lcd line) direction)
    then some (line, direction)
    else if same_text path (path_of (gpio_lcd line) value_file)
    then some (line, value_file)
    else later

abbrev pub all_lines : List Line
all_lines = lcd_rs ∷ lcd_rw ∷ lcd_en ∷ lcd_d4 ∷ lcd_d5 ∷ lcd_d6 ∷ lcd_d7 ∷ []

-- The paths fit their buffer, and tell the lines and the attributes apart.
find_file-path_of :
    (line : Line) (a : Attribute) → find_file (path_of (gpio_lcd line) a) all_lines ≡ some (line, a)
unfolding path_of
find_file-path_of lcd_rs direction = refl
find_file-path_of lcd_rs value_file = refl
find_file-path_of lcd_rw direction = refl
find_file-path_of lcd_rw value_file = refl
find_file-path_of lcd_en direction = refl
find_file-path_of lcd_en value_file = refl
find_file-path_of lcd_d4 direction = refl
find_file-path_of lcd_d4 value_file = refl
find_file-path_of lcd_d5 direction = refl
find_file-path_of lcd_d5 value_file = refl
find_file-path_of lcd_d6 direction = refl
find_file-path_of lcd_d6 value_file = refl
find_file-path_of lcd_d7 direction = refl
find_file-path_of lcd_d7 value_file = refl

abbrev pub level : Levels → Line → ℕ
level l lcd_rs = l.rs
level l lcd_rw = l.rw
level l lcd_en = l.en
level l lcd_d4 = l.d4
level l lcd_d5 = l.d5
level l lcd_d6 = l.d6
level l lcd_d7 = l.d7

-- What a line shows: 1 for every level but 0.
abbrev pub bit : ℕ → ℕ
bit v = if v == 0 then 0 else 1

-- The events of the program: it makes lines outputs, writes to them and waits.
abbrev pub IsWrite : Event → Type 0
IsWrite (set_value line v) = Unit
IsWrite (direction_output line v) = v ≡ 0
IsWrite (direction_input line) = ⊥
IsWrite (delay n) = Unit

abbrev pub AllWrites : List Event → Type 0
AllWrites [] = Unit
AllWrites (e ∷ es) = IsWrite e × AllWrites es

write_file-there :
    (opening : List ℕ → Option Errno) (path buf : List ℕ)
    → opening path ≡ none
    → write_file opening path buf ≡ (value 0, record { path = path; buf = buf } ∷ [])
write_file-there opening path buf there = rw (write_file, there) refl

level-drive :
    (l : Levels) (line k : Line) (v : ℕ)
    → level (drive l line v) k ≡ (if index k == index line then v else level l k)
level-drive l line k v = ground arith

module _ {Desc : Type 0} (g : GpioApi Desc) (api : TextApi) where
  abbrev pub put :
      Line
      → GpiodevPrivateData Desc
      → (Line → GpiodevPrivateData Desc)
      → Line
      → GpiodevPrivateData Desc
  put line d lines k = if index k == index line then d else lines k

  -- The kernel hands a write to the store function of its file.
  abbrev pub store :
      (Line → GpiodevPrivateData Desc)
      → Option (Line × Attribute)
      → List ℕ
      → Line
      → GpiodevPrivateData Desc
  store lines none buf = lines
  store lines (some (line, direction)) buf =
      put line (direction_store g api (lines line) buf (length buf)).1 lines
  store lines (some (line, value_file)) buf =
      put line (value_store g api (lines line) buf (length buf)).1 lines

  abbrev pub handle : (Line → GpiodevPrivateData Desc) → Write → Line → GpiodevPrivateData Desc
  handle lines w = store lines (find_file w.path all_lines) w.buf

  abbrev pub handle_all :
      (Line → GpiodevPrivateData Desc) → List Write → Line → GpiodevPrivateData Desc
  handle_all lines [] = lines
  handle_all lines (w ∷ ws) = handle_all (handle lines w) ws

  abbrev pub run :
      (List ℕ → Option Errno)
      → (Line → GpiodevPrivateData Desc)
      → List Event
      → Line
      → GpiodevPrivateData Desc
  run opening lines [] = lines
  run opening lines (e ∷ es) = run opening (handle_all lines (writes_of opening e)) es

  -- What the program relies on: the files are there; the numbers and the direction, written with their
  -- terminators, are read as C strings; every line can be made an output, which is low then and stays
  -- an output when its level is set.
  pub record Grants (opening : List ℕ → Option Errno) : Type 0 where
    pub file_there : (line : Line) (a : Attribute) → opening (path_of (gpio_lcd line) a) ≡ none
    pub zero_parsed : api.kstrtol (value_text 0) 0 ≡ parsed (pos 0)
    pub one_parsed : api.kstrtol (value_text 1) 0 ≡ parsed (pos 1)
    pub not_in : api.sysfs_streq (direction_text 1) in_text ≡ false
    pub is_out : api.sysfs_streq (direction_text 1) out_text ≡ true
    pub output_granted : (d : Desc) → (g.direction_output d 0).0 ≡ none
    pub output_low : (d : Desc) → g.out_level (g.direction_output d 0).1 ≡ 0
    pub value_output :
        (d : Desc) (v : ℕ)
        → g.get_direction d ≡ value 0
        → g.get_direction (g.set_value d v) ≡ value 0

  -- Every line is an output, at the level that `l` gives it.
  abbrev pub Follows : Levels → (Line → GpiodevPrivateData Desc) → Type 0
  Follows l lines =
      (line : Line)
      → (g.get_direction (lines line).desc ≡ value 0)
        × (g.out_level (lines line).desc ≡ (bit (level l line)))

  module _ (laws : GpioLaws g) (opening : List ℕ → Option Errno) (grants : Grants opening) where
    writes-set_value :
        (line : Line) (v : ℕ)
        → writes_of opening (set_value line v)
          ≡ record { path = path_of (gpio_lcd line) value_file; buf = value_text v } ∷ []
    unfolding gpio_write_value
    writes-set_value line v =
        ap (λ r. r.1)
          (write_file-there opening (path_of (gpio_lcd line) value_file) (value_text v)
            (grants.file_there line value_file))

    writes-direction_output :
        (line : Line) (v : ℕ)
        → writes_of opening (direction_output line v)
          ≡ record { path = path_of (gpio_lcd line) direction; buf = direction_text 1 } ∷ []
    unfolding gpio_configure_dir
    writes-direction_output line v =
        ap (λ r. r.1)
          (write_file-there opening (path_of (gpio_lcd line) direction) (direction_text 1)
            (grants.file_there line direction))

    value_store-text :
        (d : GpiodevPrivateData Desc) (v n : ℕ)
        → (value_store g api d (value_text v) n).1 ≡ record d { desc = g.set_value d.desc (bit v) }
    unfolding GpioSysfs.value_store
    value_store-text d v n = elim (Bool-cases (v == 0)) [
      | inl e ↦ rw (e, GpioSysfs.value_store, grants.zero_parsed) refl
      | inr e ↦ rw (e, GpioSysfs.value_store, grants.one_parsed) refl
    ]

    direction_store-text :
        (d : GpiodevPrivateData Desc) (n : ℕ)
        → (direction_store g api d (direction_text 1) n).1
          ≡ record d { desc = (g.direction_output d.desc 0).1 }
    unfolding GpioSysfs.direction_store
    direction_store-text d n = rw (GpioSysfs.direction_store, grants.not_in, grants.is_out) refl

    Follows-put :
        (l : Levels) (lines : Line → GpiodevPrivateData Desc) (line : Line) (v : ℕ)
        (d : GpiodevPrivateData Desc)
        → g.get_direction d.desc ≡ value 0
        → g.out_level d.desc ≡ (bit v)
        → Follows l lines
        → Follows (drive l line v) (put line d lines)
    Follows-put l lines line v d out high f k =
        rw (level-drive l line k v) (elim (Bool-cases (index k == index line)) [
          | inl e ↦ rw e (out, high)
          | inr e ↦ rw e (f k)
        ])

    handle-path :
        (lines : Line → GpiodevPrivateData Desc) (line : Line) (a : Attribute) (buf : List ℕ)
        → handle lines (record { path = path_of (gpio_lcd line) a; buf = buf })
          ≡ store lines (some (line, a)) buf
    handle-path lines line a buf = ap (λ t. store lines t buf) (find_file-path_of line a)

    run-set_value :
        (lines : Line → GpiodevPrivateData Desc) (line : Line) (v : ℕ)
        → handle_all lines (writes_of opening (set_value line v))
          ≡ put line (record (lines line) { desc = g.set_value (lines line).desc (bit v) }) lines
    run-set_value lines line v =
        ap (handle_all lines) (writes-set_value line v)
        ∙ (handle-path lines line value_file (value_text v)
            ∙ ap (λ d. put line d lines) (value_store-text (lines line) v (length (value_text v))))

    run-direction_output :
        (lines : Line → GpiodevPrivateData Desc) (line : Line) (v : ℕ)
        → handle_all lines (writes_of opening (direction_output line v))
          ≡ put line
              (record (lines line) { desc = (g.direction_output (lines line).desc 0).1 })
              lines
    run-direction_output lines line v =
        ap (handle_all lines) (writes-direction_output line v)
        ∙ (handle-path lines line direction (direction_text 1)
            ∙ ap (λ d. put line d lines)
                (direction_store-text (lines line) (length (direction_text 1))))

    value-bit :
        (d : Desc) (v : ℕ)
        → g.get_direction d ≡ value 0
        → g.out_level (g.set_value d (bit v)) ≡ (bit v)
    value-bit d v out = elim (Bool-cases (v == 0)) [
      | inl e ↦ rw e (laws.drives_low d out)
      | inr e ↦ rw e (laws.drives_high d 1 out (λ bad. omega arith))
    ]

    -- Each event sets the lines as the controller's side counts them.
    event-Follows :
        (e : Event) (l : Levels) (lines : Line → GpiodevPrivateData Desc)
        → IsWrite e
        → Follows l lines
        → Follows (levels_after l e) (handle_all lines (writes_of opening e))
    event-Follows (set_value line v) l lines w f = rw (run-set_value lines line v) (
        Follows-put l lines line v _ (grants.value_output (lines line).desc (bit v) (f line).0)
          (value-bit (lines line).desc v (f line).0) f)
    event-Follows (direction_output line v) l lines w f =
        rw (run-direction_output lines line v, w)
          (Follows-put l lines line 0 _
            (laws.output_set (lines line).desc 0 (grants.output_granted (lines line).desc))
            (grants.output_low (lines line).desc) f)
    event-Follows (direction_input line) l lines w f = absurd w
    event-Follows (delay n) l lines w f = f

    -- Every line an output at the level that `l` gives it: after any run of writes and waits of the
    -- program, handed to the driver's store functions file by file, every line is an output still, at the
    -- level that the controller's side counts for it after the same run.
    pub lines_driven :
        (es : List Event) (l : Levels) (lines : Line → GpiodevPrivateData Desc)
        → AllWrites es
        → Follows l lines
        → Follows (settle l es) (run opening lines es)
    lines_driven [] l lines w f = f
    lines_driven (e ∷ es) l lines w f =
        lines_driven es (levels_after l e) (handle_all lines (writes_of opening e)) w.1
          (event-Follows e l lines w.0 f)
