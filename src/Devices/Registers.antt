-- ===== src/Devices/Registers.antt =====
-- nibe1155-modbus.ts: the registers of the heat pump and their table. A register is named by its label.
-- Of a table's row, the texts for people (unit, format, description, help) are left out.
pub mod Tables
use rpi_atmega324_modbus_gat.Prelude.{ℕ, Option, none, some, List, [], ◌∷◌, ◌==◌, if◌then◌else◌}
use rpi_atmega324_modbus_gat.Modbus.Access.{Size, u8, s8, u16, s16, u32, s32}

-- The labels, in the order of the interface INibe1155.
pub data Register : Type 0 where
  supply_s1_temp supply_return_temp brine_in_temp brine_out_temp condensor_out_temp : Register
  hot_gas_temp liquid_line_temp suction_temp supply_temp degree_minutes : Register
  calc_supply_temp electric_heater_power compressor_frequency compressor_in_power : Register
  compressor_state brine_pump_state supply_pump_state supply_pump_speed : Register
  brine_pump_speed outdoor_temp room_temp outdoor_temp_average current_l1 current_l2 : Register
  current_l3 energy_comp_and_el_heater energy_compressor comp_frequ_target : Register
  comp_power10_min comp_number_of_starts comp_total_operation_time alarm alarm_reset : Register
  heat_curve_s1 heat_offset_s1 supply_min_s1 supply_max_s1 own_heat_curve_p7 : Register
  own_heat_curve_p6 own_heat_curve_p5 own_heat_curve_p4 own_heat_curve_p3 : Register
  own_heat_curve_p2 own_heat_curve_p1 reg_max_supply_diff reg_min_comp_frequ : Register
  reg_max_comp_frequ operational_mode supply_pump_mode brine_pump_mode : Register
  dm_start_heating add_heating_step add_heating_max_power add_heating_fuse : Register
  allow_additive_heating allow_heating stop_temp_heating stop_temp_add_heating : Register
  dm_diff_start_add_heating cut_off_frequ_activated2 cut_off_frequ_activated1 : Register
  cut_off_frequ_start2 cut_off_frequ_start1 cut_off_frequ_stop2 cut_off_frequ_stop1 : Register

pub data RegisterType : Type 0 where
  read_only read_write : RegisterType

-- 0.01, 0.1, 1, 10 and 100.
pub data Factor : Type 0 where
  centi deci one ten hundred : Factor

pub record RegDef : Type 0 where
  pub id : ℕ
  pub label : Register
  pub type : RegisterType
  pub size : Size
  pub factor : Factor

abbrev def : ℕ → Register → RegisterType → Size → Factor → RegDef
def i l t s f = record { id = i; label = l; type = t; size = s; factor = f }

-- The rows with their keys.
abbrev rows : List (ℕ × RegDef)
rows =
    (40008, def 40008 supply_s1_temp read_only s16 ten)
    ∷ (40012, def 40012 supply_return_temp read_only s16 ten)
    ∷ (40015, def 40015 brine_in_temp read_only s16 ten)
    ∷ (40016, def 40016 brine_out_temp read_only s16 ten)
    ∷ (40017, def 40017 condensor_out_temp read_only s16 ten)
    ∷ (40018, def 40018 hot_gas_temp read_only s16 ten)
    ∷ (40019, def 40019 liquid_line_temp read_only s16 ten)
    ∷ (40022, def 40022 suction_temp read_only s16 ten)
    ∷ (40071, def 40071 supply_temp read_only s16 ten)
    ∷ (43005, def 43005 degree_minutes read_write s16 ten)
    ∷ (43009, def 43009 calc_supply_temp read_only s16 ten)
    ∷ (43084, def 43084 electric_heater_power read_only s16 deci)
    ∷ (43136, def 43136 compressor_frequency read_only u16 ten)
    ∷ (43141, def 43141 compressor_in_power read_only u16 deci)
    ∷ (43427, def 43427 compressor_state read_only u8 one)
    ∷ (43431, def 43431 supply_pump_state read_only u8 one)
    ∷ (43433, def 43433 brine_pump_state read_only u8 one)
    ∷ (43437, def 43437 supply_pump_speed read_only u8 one)
    ∷ (43439, def 43439 brine_pump_speed read_only u8 one)
    ∷ (40004, def 40004 outdoor_temp read_only s16 ten)
    ∷ (40033, def 40033 room_temp read_only s16 ten)
    ∷ (40067, def 40067 outdoor_temp_average read_only s16 ten)
    ∷ (40079, def 40079 current_l1 read_only u32 ten)
    ∷ (40081, def 40081 current_l2 read_only u32 ten)
    ∷ (40083, def 40083 current_l3 read_only u32 ten)
    ∷ (42439, def 42439 energy_comp_and_el_heater read_only u32 ten)
    ∷ (42447, def 42447 energy_compressor read_only u32 ten)
    ∷ (43182, def 43182 comp_frequ_target read_only u16 one)
    ∷ (43375, def 43375 comp_power10_min read_only s16 one)
    ∷ (43416, def 43416 comp_number_of_starts read_only s32 one)
    ∷ (43420, def 43420 comp_total_operation_time read_only s32 one)
    ∷ (45001, def 45001 alarm read_only s16 one)
    ∷ (45171, def 45171 alarm_reset read_write u8 one)
    ∷ (47007, def 47007 heat_curve_s1 read_write s8 one)
    ∷ (47011, def 47011 heat_offset_s1 read_write s8 one)
    ∷ (47015, def 47015 supply_min_s1 read_write s16 ten)
    ∷ (47019, def 47019 supply_max_s1 read_write s16 ten)
    ∷ (47020, def 47020 own_heat_curve_p7 read_write s8 one)
    ∷ (47021, def 47021 own_heat_curve_p6 read_write s8 one)
    ∷ (47022, def 47022 own_heat_curve_p5 read_write s8 one)
    ∷ (47023, def 47023 own_heat_curve_p4 read_write s8 one)
    ∷ (47024, def 47024 own_heat_curve_p3 read_write s8 one)
    ∷ (47025, def 47025 own_heat_curve_p2 read_write s8 one)
    ∷ (47026, def 47026 own_heat_curve_p1 read_write s8 one)
    ∷ (47100, def 47100 reg_max_supply_diff read_write u8 ten)
    ∷ (47103, def 47103 reg_min_comp_frequ read_write s16 one)
    ∷ (47104, def 47104 reg_max_comp_frequ read_write s16 one)
    ∷ (47137, def 47137 operational_mode read_write u8 one)
    ∷ (47138, def 47138 supply_pump_mode read_write u8 one)
    ∷ (47139, def 47139 brine_pump_mode read_write u8 one)
    ∷ (47206, def 47206 dm_start_heating read_write s16 one)
    ∷ (47209, def 47209 add_heating_step read_write s16 one)
    ∷ (47212, def 47212 add_heating_max_power read_write s16 deci)
    ∷ (47214, def 47214 add_heating_fuse read_write u16 one)
    ∷ (47370, def 47370 allow_additive_heating read_write u8 one)
    ∷ (47371, def 47371 allow_heating read_write u8 one)
    ∷ (47375, def 47375 stop_temp_heating read_write s16 ten)
    ∷ (47376, def 47376 stop_temp_add_heating read_write s16 ten)
    ∷ (48072, def 48072 dm_diff_start_add_heating read_write s16 one)
    ∷ (48659, def 48659 cut_off_frequ_activated2 read_write s8 one)
    ∷ (48660, def 48660 cut_off_frequ_activated1 read_write s8 one)
    ∷ (48661, def 48661 cut_off_frequ_start2 read_write u8 one)
    ∷ (48662, def 48662 cut_off_frequ_start1 read_write u8 one)
    ∷ (48663, def 48663 cut_off_frequ_stop2 read_write u8 one)
    ∷ (48664, def 48664 cut_off_frequ_stop1 read_write u8 one)
    ∷ []

abbrev find_row : ℕ → List (ℕ × RegDef) → Option RegDef
find_row i [] = none
find_row i ((k, d) ∷ rest) = if k == i then some d else find_row i rest

unfoldable pub reg_def_by_id : ℕ → Option RegDef
reg_def_by_id i = find_row i rows

-- The key under which `regDefByLable` takes a label's row.
unfoldable pub id_of_lable : Register → ℕ
id_of_lable supply_s1_temp = 40008
id_of_lable supply_return_temp = 40012
id_of_lable brine_in_temp = 40015
id_of_lable brine_out_temp = 40016
id_of_lable condensor_out_temp = 40017
id_of_lable hot_gas_temp = 40018
id_of_lable liquid_line_temp = 40019
id_of_lable suction_temp = 40022
id_of_lable supply_temp = 40071
id_of_lable degree_minutes = 43005
id_of_lable calc_supply_temp = 43009
id_of_lable electric_heater_power = 43084
id_of_lable compressor_frequency = 43136
id_of_lable compressor_in_power = 43141
id_of_lable compressor_state = 43427
id_of_lable supply_pump_state = 43431
id_of_lable brine_pump_state = 43433
id_of_lable supply_pump_speed = 43437
id_of_lable brine_pump_speed = 43439
id_of_lable outdoor_temp = 40004
id_of_lable room_temp = 40033
id_of_lable outdoor_temp_average = 40067
id_of_lable current_l1 = 40079
id_of_lable current_l2 = 40081
id_of_lable current_l3 = 40083
id_of_lable energy_comp_and_el_heater = 42439
id_of_lable energy_compressor = 42447
id_of_lable comp_frequ_target = 43182
id_of_lable comp_power10_min = 43375
id_of_lable comp_number_of_starts = 43416
id_of_lable comp_total_operation_time = 43420
id_of_lable alarm = 45001
id_of_lable alarm_reset = 45171
id_of_lable heat_curve_s1 = 47007
id_of_lable heat_offset_s1 = 47011
id_of_lable supply_min_s1 = 47015
id_of_lable supply_max_s1 = 47019
id_of_lable own_heat_curve_p7 = 47020
id_of_lable own_heat_curve_p6 = 47021
id_of_lable own_heat_curve_p5 = 47022
id_of_lable own_heat_curve_p4 = 47023
id_of_lable own_heat_curve_p3 = 47024
id_of_lable own_heat_curve_p2 = 47025
id_of_lable own_heat_curve_p1 = 47026
id_of_lable reg_max_supply_diff = 47100
id_of_lable reg_min_comp_frequ = 47103
id_of_lable reg_max_comp_frequ = 47104
id_of_lable operational_mode = 47137
id_of_lable supply_pump_mode = 47138
id_of_lable brine_pump_mode = 47139
id_of_lable dm_start_heating = 47206
id_of_lable add_heating_step = 47209
id_of_lable add_heating_max_power = 47212
id_of_lable add_heating_fuse = 47214
id_of_lable allow_additive_heating = 47370
id_of_lable allow_heating = 47371
id_of_lable stop_temp_heating = 47375
id_of_lable stop_temp_add_heating = 47376
id_of_lable dm_diff_start_add_heating = 48072
id_of_lable cut_off_frequ_activated2 = 48659
id_of_lable cut_off_frequ_activated1 = 48660
id_of_lable cut_off_frequ_start2 = 48661
id_of_lable cut_off_frequ_start1 = 48662
id_of_lable cut_off_frequ_stop2 = 48663
id_of_lable cut_off_frequ_stop1 = 48664

unfoldable pub reg_def_by_lable : Register → Option RegDef
unfolding reg_def_by_id id_of_lable
reg_def_by_lable r = reg_def_by_id (id_of_lable r)
