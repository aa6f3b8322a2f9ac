-- ===== src/Tests/Frames.antt =====
-- A request for a frame of two pixels, with a profile that inverts every byte.
use glycin.Base.{ℕ, ◌-◌, ◌≡◌, refl, arith, true, false, ◌==◌, List, [], ◌∷◌, some, none}
use glycin.Math.{standard}
use glycin.Format.Types.{MemoryFormat, to_number}
use glycin.Format.Tables.{n_bytes}
use glycin.Selection.{Selection, flag}
use glycin.Operations.{deg90}
use glycin.Frame.{Frame, FrameDetails}
use glycin.Texture.Validate.{IsWellFormed}
use glycin.Icc.{transformation}
use glycin.Remote.{Image, Others, request_frame}
use glycin.Remote.Colors.{IsReliable}
use glycin.Remote.Request.{IsHandedOut, request_frame-IsHandedOut}
use glycin.Tests.Conversion.{whole_numbers}
use glycin.Tests.Services.{lcms, invert, invert-IsByPixel, length-map}

abbrev only_bgr : Selection
only_bgr bit = bit == flag MemoryFormat.b8g8r8

abbrev image : Image
image = record {
  apply_transformations = true;
  transformation_ignore_exif = false;
  transformation = (true, deg90);
  memory_format_selection = only_bgr;
}

abbrev others : Others
others = record {
  to_i64 = λ n. some n;
  from_bytes = λ bytes. none;
  get = λ shared. some shared;
  floats = whole_numbers;
  checked = standard;
  lcms = lcms;
  available_parallelism = 2;
}

abbrev frame : Frame FrameDetails
frame = record {
  width = 2;
  height = 1;
  stride = 8;
  memory_format = MemoryFormat.r8g8b8;
  delay = none;
  details = record {
    color_icc_profile = some (9 ∷ []);
    color_cicp = none;
    info_bit_depth = none;
    info_alpha_channel = none;
    info_grayscale = none;
    n_frame = none;
  };
}

abbrev texture : List ℕ
texture = 1 ∷ 2 ∷ 3 ∷ 4 ∷ 5 ∷ 6 ∷ 0 ∷ 0 ∷ []

three_bytes : to_number (n_bytes MemoryFormat.r8g8b8) ≡ 3
unfolding to_number n_bytes
three_bytes = refl

frame-IsWellFormed : IsWellFormed frame texture
frame-IsWellFormed = record {
  positive = (omega arith, omega arith);
  small = (omega arith, omega arith);
  row_fits = omega (arith, three_bytes);
  narrow = omega (arith, three_bytes);
  bounded = omega arith;
  held = omega arith;
}

others-IsReliable : IsReliable others invert frame
unfolding transformation
others-IsReliable = record {
  converts = λ n h. refl;
  transforms = λ icc_profile e. refl;
  by_pixel = invert-IsByPixel _;
  in_place = length-map (λ b. 255 - b);
}

-- The image is converted to another order of the channels.
request_frame-IsHandedOut_example :
    IsHandedOut others invert image frame texture (request_frame others image frame texture)
request_frame-IsHandedOut_example =
    request_frame-IsHandedOut others invert image frame texture others-IsReliable frame-IsWellFormed
      (omega (arith, three_bytes)) (omega (arith, three_bytes)) (omega arith)
