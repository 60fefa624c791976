-- ===== src/Tests.antt =====
-- Runs of the model at concrete inputs, and the theorems at inputs that meet their hypotheses.
mod Samples
mod GroupingTests
mod TextTests
mod AuthTests
mod KakaoTests
mod BatchTests
mod ServiceTests
mod EngineTests
mod EndpointsTests
mod ClientsTests
mod DetailsTests
mod OcrTests
mod ConfigTests
