-- ===== src/Ber/Data/Tags.antt =====
-- `mod tags` of data.rs: the context tags of the `Data` choice.
use iec_61850_studio.Base.{true, false}
use iec_61850_studio.Ber.Error.{Tag, context}
use iec_61850_studio.Ber.Tag.{new as new_tag}

abbrev pub array : Tag
array = new_tag context true 1

abbrev pub structure : Tag
structure = new_tag context true 2

abbrev pub boolean : Tag
boolean = new_tag context false 3

abbrev pub bit_string : Tag
bit_string = new_tag context false 4

abbrev pub integer : Tag
integer = new_tag context false 5

abbrev pub unsigned : Tag
unsigned = new_tag context false 6

abbrev pub floating_point : Tag
floating_point = new_tag context false 7

abbrev pub octet_string : Tag
octet_string = new_tag context false 9

abbrev pub visible_string : Tag
visible_string = new_tag context false 10

abbrev pub binary_time : Tag
binary_time = new_tag context false 12

abbrev pub mms_string : Tag
mms_string = new_tag context false 16

abbrev pub utc_time : Tag
utc_time = new_tag context false 17
